-- ===== src/Accounts/Tests.antt =====
-- A user logs in, confirms the address, changes it and is asked again.
use cargo_website.Base.{
  ◌≡◌, refl, inl, Bool, true, false, List, [], ◌∷◌, none, some, Any, All, ok, err, ap, not, ◌++◌,
  ◌∙◌, subst,
}
use cargo_website.Base.Int.{pos}
use cargo_website.Base.Text.{Text, codes, text_eq}
use cargo_website.Base.Decimal.{to_string, to_digits, parse_i32, parse_u32, parse_digits}
use cargo_website.Accounts.{NewUser, User, Email, Mail, State, Outside, email_not_found}
use cargo_website.Accounts.Mails.{send_user_confirm}
use cargo_website.Accounts.Rows.{insert_row, reconfirm, upsert_row, regenerate, verify}
use cargo_website.Accounts.Users.{
  same_account, refreshed, inserted, upsert, with_email, create_or_update,
}
use cargo_website.Accounts.Routes.{
  store_email, update_user, confirm_user_email, regenerate_and_send, regenerate_token_and_send,
}
use cargo_website.Accounts.Sessions.{
  Session, Github, invalid_state, not_shown, begin, save_user_to_database, authorize,
}
use cargo_website.Accounts.Me.{Visit, unauthorized, me}
use cargo_website.Auth.Users.{bad_origin, authenticate, verify_origin}
use cargo_website.Accounts.Belongs.{IsFresh}
use cargo_website.Accounts.Confirmed.{History, start, logged_in, accepted, History-verified}
use cargo_website.Accounts.LoggedIn.{Outcome, authorize-Outcome}

-- The server answers, and draws `token`.
abbrev draws : Text → Outside
draws token = record {
  now = 1000;
  random_string = token;
  refuses = λ _. none;
  is_address = λ a. not (text_eq a (codes "nowhere"));
  delivers = true;
  trim = λ t. t;
}

abbrev nothing : State
nothing = record { users = []; next_user_id = 1; emails = []; next_email_id = 1; mails = [] }

abbrev alice : NewUser
alice = record {
  gh_id = pos 77;
  gh_login = codes "alice";
  name = none;
  gh_avatar = none;
  gh_access_token = codes "secret";
}

abbrev alice_row : User
alice_row = record {
  id = 1;
  gh_access_token = codes "secret";
  gh_login = codes "alice";
  name = none;
  gh_avatar = none;
  gh_id = pos 77;
  account_lock_reason = none;
  account_lock_until = none;
}

abbrev row : Text → Text → Bool → Email
row email token verified = record {
  id = 1;
  user_id = 1;
  email = email;
  verified = verified;
  token = token;
  token_generated_at = some 1000;
}

abbrev mail : Text → Text → Mail
mail to token = record { to = to; user_name = codes "alice"; token = token }

abbrev with_row : Email → List Mail → State
with_row e mails = record {
  users = alice_row ∷ [];
  next_user_id = 2;
  emails = e ∷ [];
  next_email_id = 2;
  mails = mails;
}

abbrev old_mail : List Mail
old_mail = mail (codes "a@x") (codes "one") ∷ []

after_login :
    create_or_update (draws (codes "one")) alice (some (codes "a@x")) nothing
    ≡ (ok alice_row, with_row (row (codes "a@x") (codes "one") false) old_mail)
unfolding create_or_update upsert with_email same_account refreshed inserted insert_row
    send_user_confirm text_eq
after_login = refl

after_confirmation :
    confirm_user_email
      (draws (codes "two"))
      (codes "one")
      (with_row (row (codes "a@x") (codes "one") false) old_mail)
    ≡ (ok tt, with_row (row (codes "a@x") (codes "one") true) old_mail)
unfolding confirm_user_email verify text_eq
after_confirmation = refl

after_change :
    update_user
      (draws (codes "two"))
      alice_row
      (codes "1")
      (some (some (codes "b@x")))
      (with_row (row (codes "a@x") (codes "one") true) old_mail)
    ≡ (
      ok tt,
      with_row
          (row (codes "b@x") (codes "two") false)
          (old_mail ++ mail (codes "b@x") (codes "two") ∷ []),
    )
unfolding update_user store_email upsert_row reconfirm insert_row send_user_confirm text_eq
    to_string to_digits
after_change = refl

no_row_to_regenerate :
    regenerate_token_and_send (draws (codes "two")) alice_row (codes "1") nothing
    ≡ (err email_not_found, nothing)
unfolding regenerate_token_and_send regenerate_and_send regenerate send_user_confirm parse_i32
    parse_u32 parse_digits
no_row_to_regenerate = refl

nothing-IsFresh : IsFresh (codes "one") [] nothing
nothing-IsFresh = record { not_mailed = tt; not_stored = tt; not_confirmed = tt }

-- The address of the first login, confirmed.
confirmed_history :
    History
      (codes "one" ∷ [])
      (confirm_user_email
        (draws (codes "two"))
        (codes "one")
        (create_or_update (draws (codes "one")) alice (some (codes "a@x")) nothing).1).1
confirmed_history =
    accepted
      (logged_in (start nothing refl refl) (draws (codes "one")) alice (some (codes "a@x"))
        nothing-IsFresh)
      (draws (codes "two")) (codes "one")
      (ap (λ s. (confirm_user_email (draws (codes "two")) (codes "one") s).0)
          (ap (λ r. r.1) after_login)
        ∙ ap (λ r. r.0) after_confirmation)

confirmed_is :
    (confirm_user_email
      (draws (codes "two"))
      (codes "one")
      (create_or_update (draws (codes "one")) alice (some (codes "a@x")) nothing).1).1
    ≡ with_row (row (codes "a@x") (codes "one") true) old_mail
confirmed_is =
    ap (λ s. (confirm_user_email (draws (codes "two")) (codes "one") s).1)
      (ap (λ r. r.1) after_login)
    ∙ ap (λ r. r.1) after_confirmation

alice_confirmed :
    History (codes "one" ∷ []) (with_row (row (codes "a@x") (codes "one") true) old_mail)
alice_confirmed = subst (λ s. History (codes "one" ∷ []) s) confirmed_is confirmed_history

History-verified_example :
    (t : Text) × Any (λ u. u ≡ t) (codes "one" ∷ [])
    × All (λ (m : Mail). m.token ≡ t → m.to ≡ codes "a@x") old_mail
History-verified_example =
    History-verified (row (codes "a@x") (codes "one") true) alice_confirmed (inl refl) refl

abbrev github : Github
github = record {
  exchange_code = λ c. some c;
  current_user = λ _.
      some (record {
        email = none;
        name = none;
        login = codes "alice";
        id = pos 77;
        avatar_url = none;
      });
}

abbrev visit : Visit
visit = record {
  origins = [];
  authorization = none;
  allowed_origins = [];
  digest = λ t. t;
  read_only = false;
  now = 1000;
  tokens = record { rows = []; next_id = 1 };
  connects = true;
  crates_of = λ _. some [];
}

abbrev begun : Session
begun = record { github_oauth_state = some (codes "random"); user_id = none }

begun_is : begin (codes "random") (record { github_oauth_state = none; user_id = none }) ≡ begun
unfolding begin
begun_is = refl

another_state_is_refused :
    (authorize
      (draws (codes "one"))
      github
      visit
      (some (codes "secret"))
      (some (codes "other"))
      begun
      nothing).result
    ≡ err invalid_state
unfolding authorize text_eq
another_state_is_refused = refl

alice_logs_in :
    (authorize
      (draws (codes "one"))
      github
      visit
      (some (codes "secret"))
      (some (codes "random"))
      begun
      nothing).session
    ≡ record { github_oauth_state = none; user_id = some (codes "1") }
unfolding authorize save_user_to_database create_or_update upsert with_email same_account refreshed
    inserted text_eq to_string to_digits
alice_logs_in = refl

-- The page is refused, but the user is logged in.
refused_page :
    (authorize
      (draws (codes "one"))
      github
      (record visit { origins = codes "elsewhere" ∷ [] })
      (some (codes "secret"))
      (some (codes "random"))
      begun
      nothing).result
    ≡ err (not_shown (unauthorized (bad_origin (codes "elsewhere"))))
unfolding authorize save_user_to_database create_or_update upsert with_email same_account refreshed
    inserted text_eq to_string to_digits me authenticate verify_origin
refused_page = refl

authorize-Outcome_example :
    Outcome github visit (some (codes "secret")) (some (codes "random")) begun (
      authorize
        (draws (codes "one"))
        github
        visit
        (some (codes "secret"))
        (some (codes "random"))
        begun
        nothing)
authorize-Outcome_example =
    authorize-Outcome (draws (codes "one")) github visit (some (codes "secret"))
      (some (codes "random")) begun nothing
