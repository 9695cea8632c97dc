-- ===== src/Responses.antt =====
-- Errors and the responses that they become: src/util/errors.rs, src/util/errors/json.rs, `C` of
-- src/router.rs, src/middleware/known_error_to_json.rs and src/middleware/ensure_well_formed_500.rs.
-- The format of dates is a parameter.
pub mod Answered
mod Tests
use cargo_website.Base.{
  ℕ, Bool, true, false, List, [], ◌∷◌, ◌++◌, Option, none, some, Result, ok, err, if◌then◌else◌,
  reverse,
}
use cargo_website.Base.Text.{Text, codes, starts_with}

-- What a client gets: the status, the text of the error, and the header `Retry-After`.
pub record Response : Type 0 where
  pub status : ℕ
  pub detail : Text
  pub retry_after : Option Text

-- An error of the application; `foreign` is one of a library, with the text that it displays.
pub data AppError : Type 0 where
  ok_error bad_request server_error internal foreign ownership_invitation_expired : Text → AppError
  not_found forbidden read_only_mode metrics_disabled insecurely_generated_token_revoked : AppError
  too_many_requests : ℕ → AppError
  account_locked : Text → Option ℕ → AppError
  chained : AppError → AppError → AppError

-- An error that leaves the router.
pub data StdError : Type 0 where
  app_error : AppError → StdError
  router_error : StdError

unfoldable pub json_error : Text → ℕ → Response
json_error detail status = record { status = status; detail = detail; retry_after = none }

abbrev pub token_format_error : Text
token_format_error =
    codes "The given API token does not match the format used by crates.io. "
    ++ codes "Tokens generated before 2020-07-14 were generated with an insecure "
    ++ codes "random number generator, and have been revoked. You can generate a "
    ++ codes "new token at https://crates.io/me. For more information please see "
    ++ codes "https://blog.rust-lang.org/2020/07/14/crates-io-security-advisory.html. "
    ++ codes "We apologize for any inconvenience."

-- How a date is shown in a header, and how in a message.
pub record Dates : Type 0 where
  pub http_date : ℕ → Text
  pub readable : ℕ → Text

module _ (dates : Dates) where
  abbrev pub locked_text : Text → Option ℕ → Text
  locked_text reason (some until) =
      codes "This account is locked until " ++ dates.readable until ++ codes ". Reason: " ++ reason
  locked_text reason none = codes "This account is indefinitely locked. Reason: " ++ reason

  abbrev pub expired_text : Text → Text
  expired_text crate_name =
      codes "The invitation to become an owner of the "
      ++ crate_name
      ++ codes " crate expired. "
      ++ codes "Please reach out to an owner of the crate to request a new invitation."

  -- `Display`.
  unfoldable pub display : AppError → Text
  display (ok_error t) = t
  display (bad_request t) = t
  display (server_error t) = t
  display (internal t) = t
  display (foreign t) = t
  display (ownership_invitation_expired crate_name) = expired_text crate_name
  display not_found = codes "Not Found"
  display forbidden = codes "must be logged in to perform that action"
  display read_only_mode = codes "Tried to write in read only mode"
  display metrics_disabled = codes "Metrics are disabled on this crates.io instance"
  display insecurely_generated_token_revoked = token_format_error
  display (too_many_requests _) = codes "Too many requests"
  display (account_locked reason until) = locked_text reason until
  display (chained error behind) = display error ++ codes " caused by " ++ display behind

  abbrev pub too_many_text : ℕ → Text
  too_many_text retry_after =
      codes "You have published too many crates in a short period of time. Please try again after "
      ++ dates.http_date retry_after
      ++ codes " or email help@crates.io to have your limit increased."

  -- The response to an error, if it is one for the user.
  unfoldable pub response : AppError → Option Response
  unfolding json_error display
  response (ok_error t) = some (json_error t 200)
  response (bad_request t) = some (json_error t 400)
  response (server_error t) = some (json_error t 500)
  response (internal _) = none
  response (foreign _) = none
  response (ownership_invitation_expired crate_name) =
      some (json_error (expired_text crate_name) 410)
  response not_found = some (json_error (codes "Not Found") 404)
  response forbidden = some (json_error (codes "must be logged in to perform that action") 403)
  response read_only_mode = some (
      json_error
        (codes "Crates.io is currently in read-only mode for maintenance. "
          ++ codes "Please try again later.")
        503)
  response metrics_disabled =
      some (json_error (codes "Metrics are disabled on this crates.io instance") 404)
  response insecurely_generated_token_revoked = some (json_error token_format_error 401)
  response (too_many_requests retry_after) =
      some (record (json_error (too_many_text retry_after) 429) {
        retry_after = some (dates.http_date retry_after);
      })
  response (account_locked reason until) = some (json_error (locked_text reason until) 403)
  response (chained error behind) = response error

  -- What is behind an error, for the log.
  unfoldable pub cause : AppError → Option AppError
  cause (chained error behind) = some behind
  cause insecurely_generated_token_revoked =
      some (internal (codes "insecurely generated, revoked 2020-07"))
  cause _ = none

  -- `chain_error` on a result, and on an option.
  unfoldable pub chain_error {ℓ} : {T : Type ℓ} → Result AppError T → AppError → Result AppError T
  chain_error (ok t) error = ok t
  chain_error (err e) error = err (chained error e)

  unfoldable pub chain_none {ℓ} : {T : Type ℓ} → Option T → AppError → Result AppError T
  chain_none (some t) error = ok t
  chain_none none error = err error

  -- `C`: the result of a handler, with what is logged as its cause.
  unfoldable pub call : Result AppError Response → Result StdError Response × Option Text
  unfolding response cause display
  call (ok resp) = (ok resp, none)
  call (err e) =
      let logged : Option Text = elim (cause e) [ none ↦ none | some c ↦ some (display c) ] in
      (elim (response e) [ some resp ↦ ok resp | none ↦ err (app_error e) ], logged)

-- The errors of the database library that have a meaning of their own.
pub data DieselError : Type 0 where
  no_row : DieselError
  database_error other : Text → DieselError

abbrev pub ends_with : Text → Text → Bool
ends_with t suffix = starts_with (reverse t) (reverse suffix)

-- `From` with `try_convert`.
unfoldable pub from_diesel : (DieselError → Text) → DieselError → AppError
unfolding starts_with
from_diesel shown no_row = not_found
from_diesel shown (database_error message) =
    if ends_with message (codes "read-only transaction")
    then read_only_mode
    else foreign (shown (database_error message))
from_diesel shown (other t) = foreign (shown (other t))

-- `KnownErrorToJson::after`.
unfoldable pub known_error_to_json : Result StdError Response → Result StdError Response
unfolding json_error
known_error_to_json (ok resp) = ok resp
known_error_to_json (err router_error) = ok (json_error (codes "Not Found") 404)
known_error_to_json (err (app_error e)) = err (app_error e)

-- `EnsureWellFormed500::after`; its answer is no JSON.
abbrev pub internal_server_error : Response
internal_server_error = record {
  status = 500;
  detail = codes "Internal Server Error";
  retry_after = none;
}

unfoldable pub ensure_well_formed_500 : Result StdError Response → Response
ensure_well_formed_500 (ok resp) = resp
ensure_well_formed_500 (err _) = internal_server_error

-- What the client gets from a handler: the middleware that is added later runs first.
unfoldable pub answer : Dates → Result AppError Response → Response
unfolding call known_error_to_json ensure_well_formed_500
answer dates result = ensure_well_formed_500 (known_error_to_json (call dates result).0)
