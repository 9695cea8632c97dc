-- ===== src/Accounts/Each.antt =====
-- Each route on accounts keeps each token at its address.
use cargo_website.Base.{
  ◌≡◌, ◌≢◌, ◌∙◌, refl, sym, subst, inl, inr, List, Option, none, some, find, All, Bool-cases,
  Option-cases, Result-cases, ok, err, ok_injective,
}
use cargo_website.Base.Int.{pos}
use cargo_website.Base.Text.{Text, text_eq}
use cargo_website.Base.Decimal.{parse_i32, to_string}
use cargo_website.Updating.{equal_ℤ}
use cargo_website.Accounts.{User, NewUser, Email, Mail, State, Outside, upsert_user, insert_email}
use cargo_website.Accounts.Mails.{send_user_confirm}
use cargo_website.Accounts.Rows.{email_of, insert_row}
use cargo_website.Accounts.Users.{upsert, with_email, create_or_update, same_account}
use cargo_website.Accounts.Routes.{is_empty, update_user, regenerate_token_and_send}
use cargo_website.Accounts.Belongs.{IsFresh, drawn}
use cargo_website.Accounts.Kept.{IsSound}
use cargo_website.Accounts.Written.{insert_row-IsWritten}
use cargo_website.Accounts.Sound.{
  send-IsSound, IsSound-same, store_email-IsSound, regenerate_and_send-IsSound,
}

pub update_user-IsSound :
    (confirmed : List Text) (out : Outside) (user : User) (id : Text) (body : Option (Option Text))
    (s : State)
    → IsFresh out.random_string confirmed s
    → IsSound confirmed s
    → IsSound confirmed (update_user out user id body s).1
unfolding update_user
update_user-IsSound confirmed out user id body s fresh sound =
    elim (Bool-cases (text_eq (to_string user.id) id)) [
      | inr e ↦ rw (update_user, e) sound
      | inl e ↦ elim (Option-cases body) [
        | inl f ↦ rw (update_user, e, f) sound
        | inr (inner, f) ↦ elim (Option-cases inner) [
          | inl g ↦ rw (update_user, e, f, g) sound
          | inr (email, g) ↦ elim (Bool-cases (is_empty (out.trim email))) [
            | inl k ↦ rw (update_user, e, f, g, k) sound
            | inr k ↦
                rw (update_user, e, f, g, k)
                  (store_email-IsSound confirmed out user (out.trim email) s fresh sound)
          ]
        ]
      ]
    ]

pub resent-IsSound :
    (confirmed : List Text) (out : Outside) (user : User) (id : Text) (s : State)
    → IsFresh out.random_string confirmed s
    → IsSound confirmed s
    → IsSound confirmed (regenerate_token_and_send out user id s).1
unfolding regenerate_token_and_send
resent-IsSound confirmed out user id s fresh sound = elim (Option-cases (parse_i32 id)) [
  | inl e ↦ rw (regenerate_token_and_send, e) sound
  | inr (n, e) ↦ elim (Bool-cases (equal_ℤ (pos user.id) n)) [
    | inl f ↦
        rw (regenerate_token_and_send, e, f)
          (regenerate_and_send-IsSound confirmed out user s fresh sound)
    | inr f ↦ rw (regenerate_token_and_send, e, f) sound
  ]
]

upsert-emails :
    (self : NewUser) (s : State)
    → ((upsert self s).1.emails ≡ s.emails) × ((upsert self s).1.mails ≡ s.mails)
unfolding upsert
upsert-emails self s = elim (Option-cases (find (same_account self.gh_id) s.users)) [
  | inl e ↦ rw (upsert, e) (refl, refl)
  | inr (u, e) ↦ rw (upsert, e) (refl, refl)
]

with_email-IsSound :
    (confirmed : List Text) (out : Outside) (user : User) (email : Option Text) (s s' : State)
    → IsFresh out.random_string confirmed s
    → IsSound confirmed s
    → with_email out user email s ≡ ok s'
    → IsSound confirmed s'
unfolding with_email
with_email-IsSound confirmed out user none s s' fresh sound h =
    subst (λ z. IsSound confirmed z) (ok_injective h) sound
with_email-IsSound confirmed out user (some email) s s' fresh sound h =
    elim (Option-cases (out.refuses insert_email)) [
      | inr (x, e) ↦
          let failed : with_email out user (some email) s ≡ err x = rw (with_email, e) refl in
          absurd (cc)
      | inl e ↦ elim (Option-cases (email_of user.id s)) [
        | inr (r, f) ↦
            let same : with_email out user (some email) s ≡ ok s = rw (with_email, e, f) refl in
            subst (λ z. IsSound confirmed z) (ok_injective (sym same ∙ h)) sound
        | inl f ↦
            let m : Mail = record {
              to = email;
              user_name = user.gh_login;
              token = out.random_string;
            } in
            let same : with_email out user (some email) s
                ≡ ok (send_user_confirm out m (insert_row out user.id email s)).1 =
              rw (with_email, e, f) refl in
            let w = insert_row-IsWritten out user.id email s f in
            subst (λ z. IsSound confirmed z) (ok_injective (sym same ∙ h))
              (send-IsSound confirmed out out.random_string email m s
                (insert_row out user.id email s) fresh sound w.follows w.same_mails
                (w.distinct sound.distinct) (drawn refl refl))
      ]
    ]

IsFresh-same :
    (t : Text) (confirmed : List Text) (s s' : State)
    → s'.emails ≡ s.emails
    → s'.mails ≡ s.mails
    → IsFresh t confirmed s
    → IsFresh t confirmed s'
IsFresh-same t confirmed s s' e f h = record {
  not_mailed = subst (λ ms. All (λ (m : Mail). m.token ≢ t) ms) (sym f) h.not_mailed;
  not_stored = subst (λ es. All (λ (e : Email). e.token ≢ t) es) (sym e) h.not_stored;
  not_confirmed = h.not_confirmed;
}

pub logged_in-IsSound :
    (confirmed : List Text) (out : Outside) (self : NewUser) (email : Option Text) (s : State)
    → IsFresh out.random_string confirmed s
    → IsSound confirmed s
    → IsSound confirmed (create_or_update out self email s).1
unfolding create_or_update
logged_in-IsSound confirmed out self email s fresh sound =
    let (same_emails, same_mails) = upsert-emails self s in
    let saved = upsert self s in
    elim (Option-cases (out.refuses upsert_user)) [
      | inr (x, e) ↦ rw (create_or_update, e) sound
      | inl e ↦ elim (Result-cases (with_email out saved.0 email saved.1)) [
        | inl (s', f) ↦
            rw (create_or_update, e, f)
              (with_email-IsSound confirmed out saved.0 email saved.1 s'
                (IsFresh-same out.random_string confirmed s saved.1 same_emails same_mails fresh)
                (IsSound-same confirmed s saved.1 same_emails same_mails sound) f)
        | inr (x, f) ↦ rw (create_or_update, e, f) sound
      ]
    ]
