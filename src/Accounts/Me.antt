-- ===== src/Accounts/Me.antt =====
-- `me` of src/controllers/user/me.rs: what a user is shown of the own account. The query for the
-- crates is a parameter.
use cargo_website.Base.{
  ℕ, Bool, true, false, ◌||◌, List, Option, none, some, Result, ok, err, ◌>>=◌, ◌>>◌, guard, ok_or,
  map, find, ◌==◌, ◌++◌,
}
use cargo_website.Base.Text.{Text, codes}
use cargo_website.Owners.Tables
use cargo_website.Auth.Tokens.{ApiTokens}
use cargo_website.Auth.Users.{Request, authenticate, forbid_api_token_auth}
use cargo_website.Auth.Users
use cargo_website.Accounts.{User, Email, State}
use cargo_website.Accounts.Rows.{email_of}

pub record OwnedCrate : Type 0 where
  pub id : ℕ
  pub name : Text
  pub email_notifications : Bool

pub record PrivateUser : Type 0 where
  pub id : ℕ
  pub login : Text
  pub email_verified : Bool
  pub email_verification_sent : Bool
  pub name : Option Text
  pub email : Option Text
  pub avatar : Option Text
  pub url : Option Text

pub record EncodableMe : Type 0 where
  pub user : PrivateUser
  pub owned_crates : List OwnedCrate

pub data MeError : Type 0 where
  unauthorized : Users.Error → MeError
  no_connection no_row crates_failed : MeError

-- The request but for its session, the application's configuration, the tokens, whether there is a
-- connection to the database, and what it answers to the query for the crates of a user.
pub record Visit : Type 0 where
  pub origins : List Text
  pub authorization : Option Text
  pub allowed_origins : List Text
  pub digest : Text → List ℕ
  pub read_only : Bool
  pub now : ℕ
  pub tokens : ApiTokens
  pub connects : Bool
  pub crates_of : ℕ → Option (List OwnedCrate)

-- The columns of a user that authentication reads.
abbrev pub account : User → Tables.User
account u = record {
  id = u.id;
  gh_access_token = u.gh_access_token;
  gh_login = u.gh_login;
  gh_id = u.gh_id;
  account_lock_reason = u.account_lock_reason;
  account_lock_until = u.account_lock_until;
}

abbrev pub is_verified : Option Email → Bool
is_verified none = false
is_verified (some e) = e.verified

abbrev pub was_sent : Option Email → Bool
was_sent none = false
was_sent (some e) = elim e.token_generated_at [ none ↦ false | some _ ↦ true ]

abbrev pub address : Option Email → Option Text
address none = none
address (some e) = some e.email

abbrev pub private_user : User → Option Email → PrivateUser
private_user u e = record {
  id = u.id;
  login = u.gh_login;
  email_verified = is_verified e;
  email_verification_sent = is_verified e || was_sent e;
  name = u.name;
  email = address e;
  avatar = u.gh_avatar;
  url = some (codes "https://github.com/" ++ u.gh_login);
}

abbrev pub authorized {ℓ} : {A : Type ℓ} → Result Users.Error A → Result MeError A
authorized (ok a) = ok a
authorized (err e) = err (unauthorized e)

-- A page is never shown for a token; that one may be marked as used before it is refused is left out.
unfoldable pub me : Visit → Option Text → State → Result MeError EncodableMe
unfolding authenticate forbid_api_token_auth
me visit session_user_id s = do
  found ← authorized (
      authenticate visit.digest visit.read_only visit.now visit.allowed_origins
        (map account s.users)
        (record {
          origins = visit.origins;
          session_user_id = session_user_id;
          authorization = visit.authorization;
        })
        visit.tokens)
  allowed ← authorized (forbid_api_token_auth found.0)
  guard visit.connects no_connection
  user ← ok_or (find (λ (u : User). u.id == allowed.user.id) s.users) no_row
  crates ← ok_or (visit.crates_of user.id) crates_failed
  ok (record { user = private_user user (email_of user.id s); owned_crates = crates })
