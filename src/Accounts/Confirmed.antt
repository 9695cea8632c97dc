-- ===== src/Accounts/Confirmed.antt =====
-- Sequences of the operations on accounts: which addresses count as verified.
use cargo_website.Base.{
  ◌≡◌, ◌∙◌, refl, sym, subst, ◌⊎◌, inl, inr, true, List, [], ◌∷◌, Option, if◌then◌else◌, any, Any,
  All, All-map, All-intro, All-map_image, Bool-cases, Option-cases, ok, err,
}
use cargo_website.Base.Text.{Text, text_eq, text_eq_iff}
use cargo_website.Accounts.{User, NewUser, Email, Mail, State, Outside, verify_email, unknown_token}
use cargo_website.Accounts.Rows.{update_where, verify}
use cargo_website.Accounts.Users.{create_or_update}
use cargo_website.Accounts.Routes.{update_user, confirm_user_email, regenerate_token_and_send}
use cargo_website.Accounts.Belongs.{Belongs, IsConfirmed, IsFresh, All-lookup}
use cargo_website.Accounts.Kept.{IsSound, distinct_update}
use cargo_website.Accounts.Each.{update_user-IsSound, resent-IsSound, logged_in-IsSound}

-- The states that the routes lead to, with the tokens that were accepted in confirmations. A string
-- that the database draws is new: no mail, no row and no earlier confirmation has it.
pub data History : List Text → State → Type 0 where
  start : (s : State) → s.emails ≡ [] → s.mails ≡ [] → History [] s
  logged_in :
      {confirmed : List Text} {s : State}
      → History confirmed s
      → (out : Outside) (self : NewUser) (email : Option Text)
      → IsFresh out.random_string confirmed s
      → History confirmed (create_or_update out self email s).1
  updated :
      {confirmed : List Text} {s : State}
      → History confirmed s
      → (out : Outside) (user : User) (id : Text) (body : Option (Option Text))
      → IsFresh out.random_string confirmed s
      → History confirmed (update_user out user id body s).1
  resent :
      {confirmed : List Text} {s : State}
      → History confirmed s
      → (out : Outside) (user : User) (id : Text) → IsFresh out.random_string confirmed s
      → History confirmed (regenerate_token_and_send out user id s).1
  accepted :
      {confirmed : List Text} {s : State}
      → History confirmed s
      → (out : Outside) (token : Text) → (confirm_user_email out token s).0 ≡ ok tt
      → History (token ∷ confirmed) (confirm_user_email out token s).1

module _ (token : Text) (s : State) where
  abbrev confirmed_row : Email → Email
  confirmed_row e = if text_eq e.token token then verify e else e

  abbrev after : State
  after = update_where (λ e. text_eq e.token token) verify s

  row_kept :
      (e : Email)
      → ((confirmed_row e).token ≡ e.token)
        × ((confirmed_row e).email ≡ e.email)
        × ((confirmed_row e).verified ≡ true → (e.verified ≡ true) ⊎ (e.token ≡ token))
  unfolding verify
  row_kept e = elim (Bool-cases (text_eq e.token token)) [
    | inl k ↦ rw k (refl, refl, λ _. inr ((text_eq_iff e.token token).0 k))
    | inr k ↦ rw k (refl, refl, λ v. inl v)
  ]

  Belongs-after : (t a : Text) → Belongs t a s → Belongs t a after
  Belongs-after t a b = record {
    mailed = b.mailed;
    stored =
        All-map_image (λ (e : Email). e.token ≡ t → e.email ≡ a) confirmed_row s.emails
          (All-map
            (λ e h k.
              let (same_token, same_email, _) = row_kept e in same_email ∙ h (sym same_token ∙ k))
            s.emails b.stored);
  }

  accepted-IsSound :
      (confirmed : List Text) → IsSound confirmed s → IsSound (token ∷ confirmed) after
  accepted-IsSound confirmed sound = record {
    distinct =
        distinct_update s (λ e. text_eq e.token token) verify (λ e. unfold verify in refl)
          sound.distinct;
    inv = record {
      own =
          All-map_image (λ (e : Email). Belongs e.token e.email after) confirmed_row s.emails
            (All-map
              (λ e b.
                let (same_token, same_email, _) = row_kept e in
                rw (same_token, same_email) (Belongs-after e.token e.email b))
              s.emails sound.inv.own);
      verified =
          All-map_image (λ (e : Email). e.verified ≡ true → IsConfirmed (token ∷ confirmed) after e)
            confirmed_row s.emails (All-intro s.emails (λ e i v. verified_row e i v));
    };
  }
    where
      verified_row :
          (e : Email)
          → Any (λ y. y ≡ e) s.emails
          → (confirmed_row e).verified ≡ true
          → IsConfirmed (token ∷ confirmed) after (confirmed_row e)
      verified_row e i v =
          let (_, same_email, why) = row_kept e in
          elim (why v) [
            | inl old ↦
                let (t, j, b) =
                  All-lookup (λ (e : Email). e.verified ≡ true → IsConfirmed confirmed s e) s.emails
                    e sound.inv.verified i old in
                (
                  t,
                  inr j,
                  subst (λ a. Belongs t a after) (sym same_email) (Belongs-after t e.email b),
                )
            | inr k ↦
                let b =
                  All-lookup (λ (e : Email). Belongs e.token e.email s) s.emails e sound.inv.own
                    i in
                (
                  token,
                  inl refl,
                  subst (λ a. Belongs token a after) (sym same_email)
                      (Belongs-after token e.email (subst (λ t. Belongs t e.email s) k b)),
                )
          ]

confirm-IsSound :
    (confirmed : List Text) (out : Outside) (token : Text) (s : State)
    → (confirm_user_email out token s).0 ≡ ok tt
    → IsSound confirmed s
    → IsSound (token ∷ confirmed) (confirm_user_email out token s).1
unfolding confirm_user_email
confirm-IsSound confirmed out token s h sound = elim (Option-cases (out.refuses verify_email)) [
  | inr (x, e) ↦
      let failed : (confirm_user_email out token s).0 ≡ err x = rw (confirm_user_email, e) refl in
      absurd (cc)
  | inl e ↦ elim (Bool-cases (any (λ (r : Email). text_eq r.token token) s.emails)) [
    | inl f ↦ rw (confirm_user_email, e, f) (accepted-IsSound token s confirmed sound)
    | inr f ↦
        let failed : (confirm_user_email out token s).0 ≡ err unknown_token =
          rw (confirm_user_email, e, f) refl in
        absurd (cc)
  ]
]

History-IsSound : {confirmed : List Text} {s : State} → History confirmed s → IsSound confirmed s
History-IsSound (start s e f) = record {
  distinct = rw e tt;
  inv = record {
    own = subst (λ es. All (λ (e : Email). Belongs e.token e.email s) es) (sym e) tt;
    verified =
        subst (λ es. All (λ (e : Email). e.verified ≡ true → IsConfirmed [] s e) es) (sym e) tt;
  };
}
History-IsSound (logged_in {confirmed} {s} h out self email fresh) =
    logged_in-IsSound confirmed out self email s fresh (History-IsSound h)
History-IsSound (updated {confirmed} {s} h out user id body fresh) =
    update_user-IsSound confirmed out user id body s fresh (History-IsSound h)
History-IsSound (resent {confirmed} {s} h out user id fresh) =
    resent-IsSound confirmed out user id s fresh (History-IsSound h)
History-IsSound (accepted {confirmed} {s} h out token e) =
    confirm-IsSound confirmed out token s e (History-IsSound h)

-- After any sequence of logins, changes of the address, requests for another mail and confirmations,
-- in which the database never draws a token twice: of an address that counts as verified, some
-- token was accepted in a confirmation such that each mail that ever carried this token went to
-- this address.
pub History-verified :
    {confirmed : List Text} {s : State} (e : Email)
    → History confirmed s
    → Any (λ y. y ≡ e) s.emails
    → e.verified ≡ true
    → (t : Text) × Any (λ u. u ≡ t) confirmed
      × All (λ (m : Mail). m.token ≡ t → m.to ≡ e.email) s.mails
History-verified {confirmed} {s} e h i v =
    let (t, j, b) =
      All-lookup (λ (e : Email). e.verified ≡ true → IsConfirmed confirmed s e) s.emails e
        (History-IsSound h).inv.verified i v in
    (t, j, b.mailed)
