-- ===== src/Accounts/LoggedIn.antt =====
-- Who is logged in by the route `authorize` of src/controllers/user/session.rs.
use cargo_website.Base.{
  ◌≡◌, ◌∙◌, refl, sym, ap, inl, inr, true, Option, none, some, find, find-eq-some, find-Any, Any,
  subst, Bool-cases, Option-cases, Result-cases, ok, err, ok_or, ok_or-eq-ok, ok_injective,
}
use cargo_website.Base.Text.{Text, text_eq_iff}
use cargo_website.Base.Decimal.{to_string}
use cargo_website.Updating.{equal_ℤ}
use cargo_website.Accounts.{User, State, Outside}
use cargo_website.Accounts.Users.{create_or_update}
use cargo_website.Accounts.Sessions.{
  Session, GithubUser, Github, LoginError, invalid_state, no_token, github_failed, not_saved,
  new_user, is_read_only, or_default, save_user_to_database, same_state, shown, LoggedIn, authorize,
}
use cargo_website.Accounts.Me.{Visit, me}
use cargo_website.Accounts.Saved.{create_or_update-IsUpserted, equal_ℤ-eq}

-- A login, of the stored account that GitHub names for the code, with the state of the session, whose answer
-- is what `me` says in the new session, an error included; or a refusal, which logs nobody in. The
-- state of the session is used up by both.
pub data Outcome (github : Github) (visit : Visit) (code state : Option Text) (session : Session)
    (l : LoggedIn) : Type 0 where
  logged_in :
      (u : User) (token : Text) (g : GithubUser)
      → session.github_oauth_state ≡ some (or_default state)
      → github.exchange_code (or_default code) ≡ some token
      → github.current_user token ≡ some g
      → u.gh_id ≡ g.id
      → Any (λ v. v ≡ u) l.state.users
      → l.session ≡ record { github_oauth_state = none; user_id = some (to_string u.id) }
      → l.result ≡ shown (me visit l.session.user_id l.state)
      → Outcome github visit code state session l
  refused :
      (e : LoginError)
      → l.result ≡ err e
      → l.session ≡ record session { github_oauth_state = none }
      → Outcome github visit code state session l

-- The user that is saved, or found in read-only mode, has the id that GitHub gives and is stored.
save_user-account :
    (out : Outside) (g : GithubUser) (token : Text) (s : State) (u : User)
    → (save_user_to_database out g token s).0 ≡ ok u
    → (u.gh_id ≡ g.id) × Any (λ v. v ≡ u) (save_user_to_database out g token s).1.users
unfolding save_user_to_database
save_user-account out g token s u h =
    let saved = create_or_update out (new_user g token) g.email s in
    elim (Result-cases saved.0) [
      | inl (v, e) ↦
          let is : save_user_to_database out g token s ≡ (ok v, saved.1) =
            rw (save_user_to_database, e) refl in
          let same : v ≡ u = ok_injective (sym (ap (λ r. r.0) is) ∙ h) in
          let upserted = create_or_update-IsUpserted out (new_user g token) g.email s v e in
          (
            ap (λ (z : User). z.gh_id) (sym same) ∙ upserted.account,
            subst (λ w. Any (λ v. v ≡ w) (save_user_to_database out g token s).1.users) same
                (subst (λ r. Any (λ x. x ≡ v) r.1.users) (sym is) upserted.stored),
          )
      | inr (x, e) ↦ elim (Bool-cases (is_read_only x)) [
        | inl f ↦
            let is : save_user_to_database out g token s
                ≡ (ok_or (find (λ u. equal_ℤ u.gh_id g.id) saved.1.users) x, saved.1) =
              rw (save_user_to_database, e, f) refl in
            let found = ok_or-eq-ok _ x u (sym (ap (λ r. r.0) is) ∙ h) in
            (
              equal_ℤ-eq u.gh_id g.id
                  (find-eq-some (λ (u : User). equal_ℤ u.gh_id g.id) saved.1.users u found),
              subst (λ r. Any (λ x. x ≡ u) r.1.users) (sym is)
                  (find-Any (λ (u : User). equal_ℤ u.gh_id g.id) saved.1.users u found),
            )
        | inr f ↦
            let is : (save_user_to_database out g token s).0 ≡ err x =
              rw (save_user_to_database, e, f) refl in
            absurd (cc)
      ]
    ]

same_state-eq : (t : Text) (o : Option Text) → same_state t o ≡ true → o ≡ some t
same_state-eq t none h = cc
same_state-eq t (some o) h = ap some (sym ((text_eq_iff t o).0 h))

-- A login either logs in the stored account that GitHub names for the code of the request, and then the
-- state of the request is the one that was put into the session before, and the answer is that of
-- `me` in the new session, which may be an error while the user stays logged in; or it returns an
-- error and leaves the session's user as it was. The state is removed from the session in both cases.
pub authorize-Outcome :
    (out : Outside) (github : Github) (visit : Visit) (code state : Option Text) (session : Session)
    (s : State)
    → Outcome github visit code state session (authorize out github visit code state session s)
unfolding authorize
authorize-Outcome out github visit code state session s =
    elim (Bool-cases (same_state (or_default state) session.github_oauth_state)) [
      | inr e ↦ refused invalid_state (simp (authorize, e) refl) (simp (authorize, e) refl)
      | inl e ↦ elim (Option-cases (github.exchange_code (or_default code))) [
        | inl f ↦ refused no_token (simp (authorize, e, f) refl) (simp (authorize, e, f) refl)
        | inr (token, f) ↦ elim (Option-cases (github.current_user token)) [
          | inl g ↦
              refused github_failed (simp (authorize, e, f, g) refl)
                (simp (authorize, e, f, g) refl)
          | inr (user, g) ↦ elim (Result-cases (save_user_to_database out user token s).0) [
            | inl (u, k) ↦
                logged_in u token user
                  (same_state-eq (or_default state) session.github_oauth_state e) f g
                  (save_user-account out user token s u k).0
                  (simp (authorize, e, f, g, k) (save_user-account out user token s u k).1)
                  (simp (authorize, e, f, g, k) refl) (simp (authorize, e, f, g, k) refl)
            | inr (x, k) ↦
                refused (not_saved x) (simp (authorize, e, f, g, k) refl)
                  (simp (authorize, e, f, g, k) refl)
          ]
        ]
      ]
    ]
