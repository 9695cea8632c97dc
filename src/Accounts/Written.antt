-- ===== src/Accounts/Written.antt =====
-- The two ways to write an address, and a token that is drawn again.
use cargo_website.Base.{
  ℕ, ◌≡◌, ◌∙◌, refl, sym, ap, subst, inl, inr, Bool, true, false, List, [], ◌∷◌, none, some, ◌==◌,
  ==_iff, if◌then◌else◌, find-eq-some, find-eq-none, find-Any, Any, All, All-map, All-intro,
  All-append, All-map_image, Bool-cases, Option-cases,
}
use cargo_website.Base.Distinct.{AreDistinct, AreDistinct-append}
use cargo_website.Base.Text.{Text}
use cargo_website.Accounts.{Email, State, Outside}
use cargo_website.Accounts.Rows.{
  email_of, update_where, fresh_row, insert_row, reconfirm, upsert_row, regenerate,
}
use cargo_website.Accounts.Belongs.{Follows, renewed, reset, All-lookup}
use cargo_website.Accounts.Kept.{
  same_user, all_kept, Follows-update, distinct_update, reconfirm-user_id, reconfirm-email,
  Follows-reconfirm,
}

-- What a statement on the row of a user does, before the mail is sent.
pub record IsWritten (token address : Text) (user_id : ℕ) (s s' : State) : Type 0 where
  pub follows : All (Follows token address s) s'.emails
  pub same_mails : s'.mails ≡ s.mails
  pub distinct : AreDistinct same_user s.emails → AreDistinct same_user s'.emails
  pub addressed : All (λ (e : Email). (e.user_id == user_id) ≡ true → e.email ≡ address) s'.emails

pub insert_row-IsWritten :
    (out : Outside) (user_id : ℕ) (email : Text) (s : State)
    → email_of user_id s ≡ none
    → IsWritten out.random_string email user_id s (insert_row out user_id email s)
unfolding insert_row
insert_row-IsWritten out user_id email s h =
    let others = find-eq-none (λ (e : Email). e.user_id == user_id) s.emails h in
    let row = fresh_row out user_id email s.next_email_id in
    record {
      follows =
          All-append (Follows out.random_string email s) s.emails (row ∷ [])
            (all_kept out.random_string email s) (reset refl refl refl, tt);
      same_mails = refl;
      distinct = λ d. AreDistinct-append same_user s.emails row d others;
      addressed =
          All-append (λ (e : Email). (e.user_id == user_id) ≡ true → e.email ≡ email) s.emails
            (row ∷ []) (All-map (λ e k l. absurd (cc)) s.emails others) (λ _. refl, tt);
    }

addressed_if :
    (out : Outside) (user_id : ℕ) (email : Text) (e e' : Email) (b : Bool)
    → (e.user_id == user_id) ≡ b
    → e' ≡ (if b then reconfirm out email e else e)
    → (e'.user_id == user_id) ≡ true
    → e'.email ≡ email
addressed_if out user_id email e e' true k l m = rw l (reconfirm-email out email e)
addressed_if out user_id email e e' false k l m =
    let no : (e'.user_id == user_id) ≡ false =
      subst (λ (z : Email). (z.user_id == user_id) ≡ false) (sym l) k in
    absurd (cc)

update-IsWritten :
    (out : Outside) (user_id : ℕ) (email : Text) (s : State)
    → IsWritten out.random_string email user_id s
        (update_where (λ e. e.user_id == user_id) (reconfirm out email) s)
update-IsWritten out user_id email s = record {
  follows =
      Follows-update out.random_string email s (λ e. e.user_id == user_id) (reconfirm out email)
        (λ e i _. Follows-reconfirm out email s e i);
  same_mails = refl;
  distinct =
      distinct_update s (λ e. e.user_id == user_id) (reconfirm out email)
        (reconfirm-user_id out email);
  addressed =
      All-map_image (λ (e : Email). (e.user_id == user_id) ≡ true → e.email ≡ email)
        (λ e. if e.user_id == user_id then reconfirm out email e else e) s.emails
        (All-intro s.emails
          (λ e i. addressed_if out user_id email e _ (e.user_id == user_id) refl refl));
}

pub upsert_row-IsWritten :
    (out : Outside) (user_id : ℕ) (email : Text) (s : State)
    → IsWritten out.random_string email user_id s (upsert_row out user_id email s)
unfolding upsert_row
upsert_row-IsWritten out user_id email s = elim (Option-cases (email_of user_id s)) [
  | inl e ↦ rw (upsert_row, e) (insert_row-IsWritten out user_id email s e)
  | inr (r, e) ↦ rw (upsert_row, e) (update-IsWritten out user_id email s)
]

-- The rows of one user are one row.
one_row :
    (rows : List Email) (a b : Email)
    → AreDistinct same_user rows
    → Any (λ y. y ≡ a) rows
    → Any (λ y. y ≡ b) rows
    → a.user_id ≡ b.user_id
    → a ≡ b
one_row [] a b d i j e = elim i [ ]
one_row (x ∷ rows) a b d (inl i) (inl j) e = sym i ∙ j
one_row (x ∷ rows) a b d (inl i) (inr j) e =
    let apart : same_user x b ≡ false = All-lookup (λ y. same_user x y ≡ false) rows b d.0 j in
    let same : same_user x b ≡ true =
      (==_iff x.user_id b.user_id).1 (ap (λ (z : Email). z.user_id) i ∙ e) in
    absurd (cc)
one_row (x ∷ rows) a b d (inr i) (inl j) e =
    let apart : same_user x a ≡ false = All-lookup (λ y. same_user x y ≡ false) rows a d.0 i in
    let same : same_user x a ≡ true =
      (==_iff x.user_id a.user_id).1 (ap (λ (z : Email). z.user_id) j ∙ sym e) in
    absurd (cc)
one_row (x ∷ rows) a b d (inr i) (inr j) e = one_row rows a b d.1 i j e

-- What the row of a user was.
was_row :
    (out : Outside) (user_id : ℕ) (e : Email)
    → ((if e.user_id == user_id then regenerate out e else e).user_id ≡ e.user_id)
      × ((if e.user_id == user_id then regenerate out e else e).email ≡ e.email)
unfolding regenerate
was_row out user_id e = elim (Bool-cases (e.user_id == user_id)) [
  | inl k ↦ rw k (refl, refl)
  | inr k ↦ rw k (refl, refl)
]

regenerate-was :
    (out : Outside) (user_id : ℕ) (s : State) (e' : Email)
    → email_of user_id (update_where (λ e. e.user_id == user_id) (regenerate out) s) ≡ some e'
    → (e : Email) × Any (λ y. y ≡ e) s.emails × (e.user_id ≡ user_id) × (e'.email ≡ e.email)
regenerate-was out user_id s e' h =
    let rows = (update_where (λ e. e.user_id == user_id) (regenerate out) s).emails in
    let i = find-Any (λ (e : Email). e.user_id == user_id) rows e' h in
    let is = find-eq-some (λ (e : Email). e.user_id == user_id) rows e' h in
    All-lookup
      (λ (e' : Email).
        (e'.user_id == user_id) ≡ true
        → (e : Email) × Any (λ y. y ≡ e) s.emails × (e.user_id ≡ user_id) × (e'.email ≡ e.email))
      rows e'
      (All-map_image
        (λ (e' : Email).
          (e'.user_id == user_id) ≡ true
          → (e : Email) × Any (λ y. y ≡ e) s.emails × (e.user_id ≡ user_id) × (e'.email ≡ e.email))
        (λ e. if e.user_id == user_id then regenerate out e else e) s.emails
        (All-intro s.emails (λ e j k.
          let (same_id, same_email) = was_row out user_id e in
          (e, j, sym same_id ∙ (==_iff _ user_id).0 k, same_email))))
      i is

-- A token is drawn again, for the address that the user has.
pub regenerate-Follows :
    (out : Outside) (user_id : ℕ) (s : State) (e' : Email)
    → AreDistinct same_user s.emails
    → email_of user_id (update_where (λ e. e.user_id == user_id) (regenerate out) s) ≡ some e'
    → All
        (Follows out.random_string e'.email s)
        (update_where (λ e. e.user_id == user_id) (regenerate out) s).emails
unfolding regenerate
regenerate-Follows out user_id s e' d h =
    let (e, i, of_user, same) = regenerate-was out user_id s e' h in
    Follows-update out.random_string e'.email s (λ x. x.user_id == user_id) (regenerate out)
      (λ x j k.
        let is = one_row s.emails x e d j i ((==_iff x.user_id user_id).0 k ∙ sym of_user) in
        let at_address : x.email ≡ e'.email = ap (λ (z : Email). z.email) is ∙ sym same in
        renewed x j refl at_address at_address (λ v. v))
