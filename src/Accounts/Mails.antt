-- ===== src/Accounts/Mails.antt =====
-- src/email.rs: `send_user_confirm`, by way of `send`.
use cargo_website.Base.{[], ◌∷◌, ◌++◌, Result, ok, err, if◌then◌else◌, not}
use cargo_website.Base.Text.{Text, codes}
use cargo_website.Accounts.{Mail, State, Error, invalid_address, sending_failed, Outside}

-- The text of the mail, which names the token in a link.
unfoldable pub confirm_body : Text → Mail → Text
confirm_body domain m =
    codes "Hello "
    ++ m.user_name
    ++ codes
        "! Welcome to Crates.io. Please click the\nlink below to verify your email address. Thank you!\n\nhttps://"
    ++ domain
    ++ codes "/confirm/"
    ++ m.token

-- A recipient that is no address is refused before the mail leaves.
unfoldable pub send_user_confirm : Outside → Mail → State → Result Error (Unit {0}) × State
send_user_confirm out m s = if not (out.is_address m.to) then (err invalid_address, s) else (
  if out.delivers then ok tt else err sending_failed,
  record s { mails = s.mails ++ m ∷ [] },
)
