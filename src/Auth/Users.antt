-- ===== src/Auth/Users.antt =====
-- src/controllers/util.rs: the user who makes a request.
use cargo_website.Base.{
  ℕ, Bool, true, false, not, List, [], Option, none, some, Result, ok, err, ◌>>=◌, ok_or, ltb, ◌==◌,
  if◌then◌else◌, any, find,
}
use cargo_website.Base.Int.{ℤ, pos, negsuc}
use cargo_website.Base.Text.{Text, text_eq}
use cargo_website.Base.Decimal.{parse_i32}
use cargo_website.Owners.Tables.{User}
use cargo_website.Auth.Tokens.{
  ApiToken, ApiTokens, find_by_api_token, insecurely_generated_token_revoked, not_found,
}
use cargo_website.Auth.Tokens

-- The headers that can be read as text, and the `user_id` of the session's cookie.
pub record Request : Type 0 where
  pub origins : List Text
  pub session_user_id : Option Text
  pub authorization : Option Text

pub record AuthenticatedUser : Type 0 where
  pub user : User
  pub token_id : Option ℕ

pub data Error : Type 0 where
  no_user_for_cookie token_revoked invalid_token no_user_for_token not_authenticated : Error
  api_token_disallowed : Error
  bad_origin : Text → Error
  account_locked : Text → Option ℕ → Error

unfoldable pub verify_origin : List Text → Request → Result Error Bool
verify_origin allowed_origins req =
    elim (find (λ value. not (any (λ it. text_eq it value) allowed_origins)) req.origins) [
      | some bad ↦ err (bad_origin bad)
      | none ↦ ok true
    ]

-- `User::find`. The ids of the table are not negative.
unfoldable pub find_user : ℤ → List User → Option User
find_user (pos id) users = find (λ u. u.id == id) users
find_user (negsuc _) users = none

abbrev pub from_session : Request → Option ℤ
from_session req = elim req.session_user_id [ none ↦ none | some s ↦ parse_i32 s ]

abbrev pub map_token_error : Tokens.Error → Error
map_token_error insecurely_generated_token_revoked = token_revoked
map_token_error not_found = invalid_token

abbrev pub map_err {ℓ} : {A : Type ℓ} → Result Tokens.Error A → Result Error A
map_err (ok a) = ok a
map_err (err e) = err (map_token_error e)

module _ (digest : Text → List ℕ) (read_only : Bool) (now : ℕ) where
  unfoldable pub by_token :
      List User → Text → ApiTokens → Result Error (AuthenticatedUser × ApiTokens)
  by_token users header_value tokens = do
    t ← map_err (find_by_api_token digest read_only now header_value tokens)
    u ← ok_or (find_user (pos t.0.user_id) users) no_user_for_token
    ok (record { user = u; token_id = some t.0.id }, t.1)

  unfoldable pub authenticate_user :
      List User → Request → ApiTokens → Result Error (AuthenticatedUser × ApiTokens)
  authenticate_user users req tokens = elim (from_session req) [
    | some id ↦ do
      u ← ok_or (find_user id users) no_user_for_cookie
      ok (record { user = u; token_id = none }, tokens)
    | none ↦ elim req.authorization [
      | some header_value ↦ by_token users header_value tokens
      | none ↦ err not_authenticated
    ]
  ]

  -- Whether the account is locked, and until when.
  unfoldable pub still_locked : User → Bool
  still_locked u = elim u.account_lock_reason [
    | none ↦ false
    | some _ ↦ elim u.account_lock_until [ none ↦ true | some until ↦ ltb now until ]
  ]

  abbrev pub reason_of : User → Text
  reason_of u = elim u.account_lock_reason [ none ↦ [] | some reason ↦ reason ]

  unfoldable pub authenticate :
      List Text → List User → Request → ApiTokens → Result Error (AuthenticatedUser × ApiTokens)
  authenticate allowed_origins users req tokens = do
    checked ← verify_origin allowed_origins req
    found ← authenticate_user users req tokens
    if still_locked found.0.user
        then err (account_locked (reason_of found.0.user) found.0.user.account_lock_until)
        else ok found

unfoldable pub forbid_api_token_auth : AuthenticatedUser → Result Error AuthenticatedUser
forbid_api_token_auth self = elim self.token_id [
  | none ↦ ok self
  | some _ ↦ err api_token_disallowed
]
