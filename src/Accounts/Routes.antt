-- ===== src/Accounts/Routes.antt =====
-- The routes of src/controllers/user/me.rs that change an email address or confirm it.
use cargo_website.Base.{
  Bool, true, false, [], ◌∷◌, Option, none, some, Result, ok, err, if◌then◌else◌, not, any, ◌==◌,
}
use cargo_website.Base.Int.{pos}
use cargo_website.Base.Text.{Text, text_eq}
use cargo_website.Base.Decimal.{parse_i32, to_string}
use cargo_website.Updating.{equal_ℤ}
use cargo_website.Accounts.{
  User, Email, Mail, State, Error, Outside, upsert_email, verify_email, regenerate_token,
  wrong_user, invalid_request, empty_email, token_failed, email_not_found, unknown_token,
  invalid_user_id,
}
use cargo_website.Accounts.Mails.{send_user_confirm}
use cargo_website.Accounts.Rows.{email_of, update_where, upsert_row, regenerate, verify}

abbrev pub is_empty : Text → Bool
is_empty [] = true
is_empty (_ ∷ _) = false

-- The row of the user after the statement, with the mail that asks to confirm it.
abbrev pub mail_for : User → Email → Mail
mail_for user e = record { to = e.email; user_name = user.gh_login; token = e.token }

-- The address is stored and the mail is sent to it; what comes of the mail is swallowed.
unfoldable pub store_email : Outside → User → Text → State → Result Error (Unit {0}) × State
unfolding send_user_confirm upsert_row
store_email out user user_email s = elim (out.refuses upsert_email) [
  | some _ ↦ (err token_failed, s)
  | none ↦
      let s' = upsert_row out user.id user_email s in
      elim (email_of user.id s') [
        | none ↦ (err token_failed, s)
        | some e ↦ (
          ok tt,
          (send_user_confirm out
              (record { to = user_email; user_name = user.gh_login; token = e.token }) s').1,
        )
      ]
]

-- The body of the request: `none` if it cannot be read, and the address of the update.
unfoldable pub update_user :
    Outside → User → Text → Option (Option Text) → State → Result Error (Unit {0}) × State
unfolding store_email
update_user out user param_user_id body s =
    if not (text_eq (to_string user.id) param_user_id) then (err wrong_user, s) else elim body [
      | none ↦ (err invalid_request, s)
      | some none ↦ (err empty_email, s)
      | some (some email) ↦
          if is_empty (out.trim email)
          then (err empty_email, s)
          else store_email out user (out.trim email) s
    ]

unfoldable pub confirm_user_email : Outside → Text → State → Result Error (Unit {0}) × State
unfolding verify
confirm_user_email out req_token s = elim (out.refuses verify_email) [
  | some e ↦ (err e, s)
  | none ↦
      if any (λ (e : Email). text_eq e.token req_token) s.emails
      then (ok tt, update_where (λ e. text_eq e.token req_token) verify s)
      else (err unknown_token, s)
]

-- What a failed transaction leaves behind: the mails that were sent all the same.
abbrev pub roll_back : State → State → State
roll_back before after = record before { mails = after.mails }

-- Here it is an error that the mail is not sent.
unfoldable pub regenerate_and_send : Outside → User → State → Result Error (Unit {0}) × State
unfolding send_user_confirm regenerate
regenerate_and_send out user s = elim (out.refuses regenerate_token) [
  | some _ ↦ (err email_not_found, s)
  | none ↦
      let s' = update_where (λ e. e.user_id == user.id) (regenerate out) s in
      elim (email_of user.id s') [
        | none ↦ (err email_not_found, s)
        | some e ↦
            let sent = send_user_confirm out (mail_for user e) s' in
            elim sent.0 [ ok _ ↦ (ok tt, sent.1) | err x ↦ (err x, roll_back s sent.1) ]
      ]
]

unfoldable pub regenerate_token_and_send :
    Outside → User → Text → State → Result Error (Unit {0}) × State
unfolding regenerate_and_send
regenerate_token_and_send out user param_user_id s = elim (parse_i32 param_user_id) [
  | none ↦ (err invalid_user_id, s)
  | some id ↦
      if not (equal_ℤ (pos user.id) id) then (err wrong_user, s) else regenerate_and_send out user s
]
