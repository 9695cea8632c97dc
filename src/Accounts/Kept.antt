-- ===== src/Accounts/Kept.antt =====
-- The operations on emails keep each token at its address.
use cargo_website.Base.{
  ◌≡◌, ◌∙◌, refl, sym, subst, inl, inr, Bool, true, false, List, [], ◌∷◌, ◌==◌, if◌then◌else◌, Any,
  All, All-intro, All-append, All-map_image, Bool-cases,
}
use cargo_website.Base.Distinct.{AreDistinct, AreDistinct-map}
use cargo_website.Base.Text.{Text, text_eq, text_eq_iff}
use cargo_website.Accounts.{Email, Mail, State, Outside}
use cargo_website.Accounts.Mails.{send_user_confirm}
use cargo_website.Accounts.Rows.{update_where, reconfirm}
use cargo_website.Accounts.Belongs.{
  Inv, IsFresh, Follows, kept, renewed, reset, Sends, before, drawn, again, Inv-follows,
}

abbrev pub same_user : Email → Email → Bool
same_user a b = a.user_id == b.user_id

-- Each user has one row at most, and the tokens belong to the addresses.
pub record IsSound (confirmed : List Text) (s : State) : Type 0 where
  pub distinct : AreDistinct same_user s.emails
  pub inv : Inv confirmed s

all_before : (t a : Text) (s : State) → All (Sends t a s) s.mails
all_before t a s = All-intro s.mails (λ m i. before i)

pub all_kept : (t a : Text) (s : State) → All (Follows t a s) s.emails
all_kept t a s = All-intro s.emails (λ e i. kept e i refl refl (λ v. v))

pub sends_row :
    (t a : Text) (s : State) (e' : Email) (m : Mail)
    → Follows t a s e'
    → m.token ≡ e'.token
    → m.to ≡ e'.email
    → Sends t a s m
sends_row t a s e' m (kept e i p q _) k l = again e i (k ∙ p) (l ∙ q)
sends_row t a s e' m (renewed _ _ p q _ _) k l = drawn (k ∙ p) (l ∙ q)
sends_row t a s e' m (reset p q _) k l = drawn (k ∙ p) (l ∙ q)

pub send-emails :
    (out : Outside) (m : Mail) (s : State) → (send_user_confirm out m s).1.emails ≡ s.emails
unfolding send_user_confirm
send-emails out m s = elim (Bool-cases (out.is_address m.to)) [
  | inl e ↦ simp e refl
  | inr e ↦ simp e refl
]

pub send-mails :
    (t a : Text) (out : Outside) (m : Mail) (s s' : State)
    → s'.mails ≡ s.mails
    → Sends t a s m
    → All (Sends t a s) (send_user_confirm out m s').1.mails
unfolding send_user_confirm
send-mails t a out m s s' same h =
    let old : All (Sends t a s) s'.mails =
      subst (λ ms. All (Sends t a s) ms) (sym same) (all_before t a s) in
    elim (Bool-cases (out.is_address m.to)) [
      | inl e ↦ simp e (All-append (Sends t a s) s'.mails (m ∷ []) old (h, tt))
      | inr e ↦ simp e old
    ]

-- The state after a change of the rows and a mail for one of them.
pub Inv-send :
    (t a : Text) (confirmed : List Text) (out : Outside) (m : Mail) (s s' : State)
    → IsFresh t confirmed s
    → All (Follows t a s) s'.emails
    → s'.mails ≡ s.mails
    → Sends t a s m
    → Inv confirmed s
    → Inv confirmed (send_user_confirm out m s').1
Inv-send t a confirmed out m s s' fresh rows same sent inv =
    Inv-follows t a confirmed s (send_user_confirm out m s').1 fresh
      (subst (λ es. All (Follows t a s) es) (sym (send-emails out m s')) rows)
      (send-mails t a out m s s' same sent) inv

Follows-if :
    (t a : Text) (s : State) (b : Bool) (e e' : Email)
    → Any (λ y. y ≡ e) s.emails
    → (b ≡ true → Follows t a s e')
    → Follows t a s (if b then e' else e)
Follows-if t a s true e e' i h = h refl
Follows-if t a s false e e' i h = kept e i refl refl (λ v. v)

pub Follows-update :
    (t a : Text) (s : State) (test : Email → Bool) (change : Email → Email)
    → ((e : Email) → Any (λ y. y ≡ e) s.emails → test e ≡ true → Follows t a s (change e))
    → All (Follows t a s) (update_where test change s).emails
Follows-update t a s test change h =
    All-map_image (Follows t a s) (λ e. if test e then change e else e) s.emails
      (All-intro s.emails (λ e i. Follows-if t a s (test e) e (change e) i (h e i)))

-- A change that keeps the user of a row.
user_if :
    (test : Email → Bool) (change : Email → Email)
    → ((e : Email) → (change e).user_id ≡ e.user_id)
    → (e : Email) → (if test e then change e else e).user_id ≡ e.user_id
user_if test change h e = elim (Bool-cases (test e)) [ inl k ↦ rw k (h e) | inr k ↦ rw k refl ]

pub distinct_update :
    (s : State) (test : Email → Bool) (change : Email → Email)
    → ((e : Email) → (change e).user_id ≡ e.user_id)
    → AreDistinct same_user s.emails
    → AreDistinct same_user (update_where test change s).emails
distinct_update s test change h d =
    AreDistinct-map same_user (λ e. if test e then change e else e)
      (λ x y. rw (user_if test change h x, user_if test change h y) refl) s.emails d

pub reconfirm-user_id :
    (out : Outside) (email : Text) (e : Email) → (reconfirm out email e).user_id ≡ e.user_id
unfolding reconfirm
reconfirm-user_id out email e = elim (Bool-cases (text_eq email e.email)) [
  | inl k ↦ rw k refl
  | inr k ↦ rw k refl
]

pub Follows-reconfirm :
    (out : Outside) (email : Text) (s : State) (e : Email)
    → Any (λ y. y ≡ e) s.emails
    → Follows out.random_string email s (reconfirm out email e)
unfolding reconfirm
Follows-reconfirm out email s e i = elim (Bool-cases (text_eq email e.email)) [
  | inl k ↦ rw k (kept e i refl refl (λ v. v))
  | inr k ↦ rw k (reset refl refl refl)
]

pub reconfirm-email :
    (out : Outside) (email : Text) (e : Email) → (reconfirm out email e).email ≡ email
unfolding reconfirm
reconfirm-email out email e = elim (Bool-cases (text_eq email e.email)) [
  | inl k ↦ rw k (sym ((text_eq_iff email e.email).0 k))
  | inr k ↦ rw k refl
]
