-- ===== src/Accounts/Sessions.antt =====
-- src/controllers/user/session.rs: the login by way of GitHub.
use cargo_website.Base.{
  Bool, true, false, [], Option, none, some, Result, ok, err, ok_or, if◌then◌else◌, not, find,
}
use cargo_website.Base.Int.{ℤ}
use cargo_website.Base.Text.{Text, text_eq}
use cargo_website.Base.Decimal.{to_string}
use cargo_website.Updating.{equal_ℤ}
use cargo_website.Accounts.{User, NewUser, State, Error, read_only, Outside}
use cargo_website.Accounts.Users.{create_or_update}
use cargo_website.Accounts.Me.{EncodableMe, MeError, Visit, me}
use cargo_website.Accounts

-- What the cookie of the session holds.
pub record Session : Type 0 where
  pub github_oauth_state : Option Text
  pub user_id : Option Text

pub record GithubUser : Type 0 where
  pub email : Option Text
  pub name : Option Text
  pub login : Text
  pub id : ℤ
  pub avatar_url : Option Text

pub data LoginError : Type 0 where
  invalid_state no_token : LoginError
  github_failed : LoginError
  not_saved : Accounts.Error → LoginError
  not_shown : MeError → LoginError

-- `exchange_code` and `current_user`.
pub record Github : Type 0 where
  pub exchange_code : Text → Option Text
  pub current_user : Text → Option GithubUser

-- The state is a random string of the library.
unfoldable pub begin : Text → Session → Session
begin state session = record session { github_oauth_state = some state }

abbrev pub new_user : GithubUser → Text → NewUser
new_user user access_token = record {
  gh_id = user.id;
  gh_login = user.login;
  name = user.name;
  gh_avatar = user.avatar_url;
  gh_access_token = access_token;
}

-- `e.is::<ReadOnlyMode>()`.
abbrev pub is_read_only : Accounts.Error → Bool
is_read_only read_only = true
is_read_only _ = false

-- In read-only mode the user is looked up as it is.
unfoldable pub save_user_to_database :
    Outside → GithubUser → Text → State → Result Accounts.Error User × State
unfolding create_or_update
save_user_to_database out user access_token s =
    let saved = create_or_update out (new_user user access_token) user.email s in
    elim saved.0 [
      | ok u ↦ (ok u, saved.1)
      | err e ↦
          if is_read_only e
          then (ok_or (find (λ u. equal_ℤ u.gh_id user.id) saved.1.users) e, saved.1)
          else (err e, saved.1)
    ]

-- `unwrap_or_default`.
abbrev pub or_default : Option Text → Text
or_default none = []
or_default (some t) = t

-- Whether the state of the query is that of the session.
abbrev pub same_state : Text → Option Text → Bool
same_state state none = false
same_state state (some expected) = text_eq state expected

pub record LoggedIn : Type 0 where
  pub result : Result LoginError EncodableMe
  pub session : Session
  pub state : State

abbrev pub shown : Result MeError EncodableMe → Result LoginError EncodableMe
shown (ok page) = ok page
shown (err e) = err (not_shown e)

-- The session's state is removed before it is compared. The answer to a login is that of `me`, for
-- the session in which the user is logged in.
unfoldable pub authorize :
    Outside → Github → Visit → Option Text → Option Text → Session → State → LoggedIn
unfolding save_user_to_database me
authorize out github visit code state session s =
    let code_text = or_default code in
    let state_text = or_default state in
    let session' : Session = record session { github_oauth_state = none } in
    let stop : LoginError → LoggedIn =
      λ e. record { result = err e; session = session'; state = s } in
    if not (same_state state_text session.github_oauth_state)
    then stop invalid_state
    else elim (github.exchange_code code_text) [
      | none ↦ stop no_token
      | some token ↦ elim (github.current_user token) [
        | none ↦ stop github_failed
        | some ghuser ↦
            let saved = save_user_to_database out ghuser token s in
            elim saved.0 [
              | err e ↦ record { result = err (not_saved e); session = session'; state = saved.1 }
              | ok user ↦
                  let user_id = some (to_string user.id) in
                  record {
                    result = shown (me visit user_id saved.1);
                    session = record session' { user_id = user_id };
                    state = saved.1;
                  }
            ]
      ]
    ]

unfoldable pub logout : Session → Session
logout session = record session { user_id = none }
