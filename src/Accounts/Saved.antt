-- ===== src/Accounts/Saved.antt =====
-- A login stores the user under the id that GitHub gives, and finds the same account again.
use cargo_website.Base.{
  ℕ, ◌≡◌, ◌∙◌, refl, sym, ap, subst, inl, inr, Bool, true, List, [], ◌∷◌, ◌++◌, Any, map, Option,
  none, some, if◌then◌else◌, find, find-eq-some, Bool-cases, Option-cases, Result-cases, ok, err,
  ok_injective, arith,
}
use cargo_website.Base.Int.{ℤ, pos, negsuc, ltb_ℤ}
use cargo_website.Base.Text.{Text}
use cargo_website.Updating.{equal_ℤ}
use cargo_website.Accounts.{User, NewUser, State, Outside, upsert_user, insert_email, Mail}
use cargo_website.Accounts.Mails.{send_user_confirm}
use cargo_website.Accounts.Rows.{email_of, insert_row}
use cargo_website.Accounts.Users.{
  same_account, refreshed, inserted, upsert, with_email, create_or_update,
}

find-change :
    {A : Type 0} (p : A → Bool) (change : A → A) (xs : List A) (x : A)
    → ((y : A) → p (change y) ≡ p y)
    → find p xs ≡ some x
    → find p (map (λ y. if p y then change y else y) xs) ≡ some (change x)
find-change {A} p change [] x h e = cc
find-change {A} p change (y ∷ ys) x h e = elim (Bool-cases (p y)) [
  | inl k ↦
      let is : y ≡ x = ground arith in
      let still : p (change y) ≡ true = h y ∙ k in
      let f = λ (z : A). if p z then change z else z in
      let top : find p (map f (y ∷ ys)) ≡ find p (change y ∷ map f ys) =
        ap (λ z. find p (z ∷ map f ys)) (rw k refl) in
      let here : find p (change y ∷ map f ys) ≡ some (change y) = rw (find, still) refl in
      top ∙ here ∙ ap (λ z. some (change z)) is
  | inr k ↦
      let f = λ (z : A). if p z then change z else z in
      let top : find p (map f (y ∷ ys)) ≡ find p (y ∷ map f ys) =
        ap (λ z. find p (z ∷ map f ys)) (rw k refl) in
      let skip : find p (y ∷ map f ys) ≡ find p (map f ys) = rw (find, k) refl in
      top ∙ skip ∙ find-change p change ys x h (rw (find, k) at e)
]

find-append :
    {A : Type 0} (p : A → Bool) (xs : List A) (x : A)
    → find p xs ≡ none
    → p x ≡ true
    → find p (xs ++ x ∷ []) ≡ some x
find-append p [] x h e = rw (find, e) refl
find-append p (y ∷ ys) x h e = elim (Bool-cases (p y)) [
  | inl k ↦ let found : find p (y ∷ ys) ≡ some y = rw (find, k) refl in absurd (cc)
  | inr k ↦ rw (find, k) (find-append p ys x (rw (find, k) at h) e)
]

Any-last : {A : Type 0} (xs : List A) (x : A) → Any (λ y. y ≡ x) (xs ++ x ∷ [])
Any-last [] x = inl refl
Any-last (y ∷ ys) x = inr (Any-last ys x)

Any-change :
    {A : Type 0} (p : A → Bool) (change : A → A) (xs : List A) (x : A)
    → find p xs ≡ some x
    → Any (λ y. y ≡ change x) (map (λ y. if p y then change y else y) xs)
Any-change p change [] x e = cc
Any-change p change (y ∷ ys) x e = elim (Bool-cases (p y)) [
  | inl k ↦
      let is : y ≡ x = ground arith in
      let new : (if p y then change y else y) ≡ change y = rw k refl in inl (new ∙ ap change is)
  | inr k ↦ inr (Any-change p change ys x (rw (find, k) at e))
]

-- The row of the account after the statement.
pub record IsUpserted (self : NewUser) (s : State) (u : User) (s' : State) : Type 0 where
  pub account : u.gh_id ≡ self.gh_id
  pub stored : Any (λ v. v ≡ u) s'.users
  pub found : ltb_ℤ (pos 0) self.gh_id ≡ true → find (same_account self.gh_id) s'.users ≡ some u
  pub same_id : (v : User) → find (same_account self.gh_id) s.users ≡ some v → u.id ≡ v.id

pub equal_ℤ-eq : (a b : ℤ) → (equal_ℤ a b ≡ true) → a ≡ b
equal_ℤ-eq a b h = ground arith

equal_ℤ-refl : (a : ℤ) → equal_ℤ a a ≡ true
equal_ℤ-refl (pos n) = ground arith
equal_ℤ-refl (negsuc n) = ground arith

same_account-eq : (gh_id : ℤ) (u : User) → same_account gh_id u ≡ true → u.gh_id ≡ gh_id
unfolding same_account
same_account-eq gh_id u h = equal_ℤ-eq u.gh_id gh_id (ground arith)

same_account-inserted :
    (self : NewUser) (id : ℕ)
    → ltb_ℤ (pos 0) self.gh_id ≡ true
    → same_account self.gh_id (inserted self id) ≡ true
unfolding same_account inserted
same_account-inserted self id k = rw (k, equal_ℤ-refl self.gh_id) refl

upsert-IsUpserted :
    (self : NewUser) (s : State) → IsUpserted self s (upsert self s).0 (upsert self s).1
unfolding upsert
upsert-IsUpserted self s = elim (Option-cases (find (same_account self.gh_id) s.users)) [
  | inl e ↦
      rw (upsert, e)
        (record {
          account = unfold inserted in refl;
          stored = Any-last s.users (inserted self s.next_user_id);
          found = λ k.
              find-append (same_account self.gh_id) s.users (inserted self s.next_user_id) e
                (same_account-inserted self s.next_user_id k);
          same_id = λ v f. absurd (cc);
        })
  | inr (u, e) ↦
      rw (upsert, e)
        (record {
          account =
              unfold refreshed in
              same_account-eq self.gh_id u (find-eq-some (same_account self.gh_id) s.users u e);
          stored = Any-change (same_account self.gh_id) (refreshed self) s.users u e;
          found = λ k.
              find-change (same_account self.gh_id) (refreshed self) s.users u
                (λ y. unfold same_account refreshed in refl) e;
          same_id = λ v f.
              unfold refreshed in (let same : u ≡ v = ground arith in ap (λ (z : User). z.id) same);
        })
]

send-users : (out : Outside) (m : Mail) (s : State) → (send_user_confirm out m s).1.users ≡ s.users
unfolding send_user_confirm
send-users out m s = elim (Bool-cases (out.is_address m.to)) [
  | inl e ↦ simp e refl
  | inr e ↦ simp e refl
]

with_email-users :
    (out : Outside) (user : User) (email : Option Text) (s s' : State)
    → with_email out user email s ≡ ok s'
    → s'.users ≡ s.users
unfolding with_email
with_email-users out user none s s' h = ap (λ (z : State). z.users) (sym (ok_injective h))
with_email-users out user (some email) s s' h = elim (Option-cases (out.refuses insert_email)) [
  | inr (x, e) ↦
      let failed : with_email out user (some email) s ≡ err x = rw (with_email, e) refl in
      absurd (cc)
  | inl e ↦ elim (Option-cases (email_of user.id s)) [
    | inr (r, f) ↦
        let same : with_email out user (some email) s ≡ ok s = rw (with_email, e, f) refl in
        ap (λ (z : State). z.users) (ok_injective (sym h ∙ same))
    | inl f ↦
        let m : Mail = record {
          to = email;
          user_name = user.gh_login;
          token = out.random_string;
        } in
        let same : with_email out user (some email) s
            ≡ ok (send_user_confirm out m (insert_row out user.id email s)).1 =
          rw (with_email, e, f) refl in
        ap (λ (z : State). z.users) (ok_injective (sym h ∙ same))
        ∙ send-users out m (insert_row out user.id email s)
        ∙ unfold insert_row in refl
  ]
]

pub create_or_update-IsUpserted :
    (out : Outside) (self : NewUser) (email : Option Text) (s : State) (u : User)
    → (create_or_update out self email s).0 ≡ ok u
    → IsUpserted self s u (create_or_update out self email s).1
unfolding create_or_update
create_or_update-IsUpserted out self email s u h = elim (Option-cases (out.refuses upsert_user)) [
  | inr (x, e) ↦
      let failed : (create_or_update out self email s).0 ≡ err x = rw (create_or_update, e) refl in
      absurd (cc)
  | inl e ↦
      let saved = upsert self s in
      elim (Result-cases (with_email out saved.0 email saved.1)) [
        | inr (x, f) ↦
            let failed : (create_or_update out self email s).0 ≡ err x =
              rw (create_or_update, e, f) refl in
            absurd (cc)
        | inl (s', f) ↦
            let is : (create_or_update out self email s).0 ≡ ok saved.0 =
              rw (create_or_update, e, f) refl in
            let same : saved.0 ≡ u = ok_injective (sym is ∙ h) in
            let i = upsert-IsUpserted self s in
            rw (create_or_update, e, f)
              (subst (λ z. IsUpserted self s z s') same
                (record {
                  account = i.account;
                  stored =
                      subst (λ us. Any (λ v. v ≡ saved.0) us)
                        (sym (with_email-users out saved.0 email saved.1 s' f)) i.stored;
                  found = λ k.
                      ap (find (same_account self.gh_id))
                        (with_email-users out saved.0 email saved.1 s' f)
                      ∙ i.found k;
                  same_id = i.same_id;
                }))
      ]
]
