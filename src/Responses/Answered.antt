-- ===== src/Responses/Answered.antt =====
-- What a client is told of an error, and what is logged.
use cargo_website.Base.{
  ℕ, ◌≡◌, ◌∙◌, refl, sym, ap, subst, Option, Option-cases, inl, inr, none, some, err,
}
use cargo_website.Responses.{
  AppError, ok_error, bad_request, server_error, internal, foreign, ownership_invitation_expired,
  not_found, forbidden, read_only_mode, metrics_disabled, insecurely_generated_token_revoked,
  too_many_requests, account_locked, chained, Dates, response, Response, json_error, display, call,
  known_error_to_json, internal_server_error, ensure_well_formed_500, answer,
}

-- The error that was chained last.
abbrev pub outermost : AppError → AppError
outermost (chained error behind) = outermost error
outermost e = e

-- The errors for the log and those of libraries, which may say what no client is to know.
abbrev pub IsInner : AppError → Type 0
IsInner (internal t) = Unit
IsInner (foreign t) = Unit
IsInner _ = ⊥

-- The statuses that clients know the other errors by.
abbrev pub status_of : AppError → Option ℕ
status_of (ok_error t) = some 200
status_of (bad_request t) = some 400
status_of insecurely_generated_token_revoked = some 401
status_of forbidden = some 403
status_of (account_locked t until) = some 403
status_of not_found = some 404
status_of metrics_disabled = some 404
status_of (ownership_invitation_expired t) = some 410
status_of (too_many_requests retry_after) = some 429
status_of (server_error t) = some 500
status_of read_only_mode = some 503
status_of _ = none

-- What a client is told of an error: nothing of it, if it is an inner one; what it displays, under
-- its status; or, where the log is told less than the client, that it has to wait, or that the site
-- has to be maintained.
pub data Told (dates : Dates) (e : AppError) (r : Response) : Type 0 where
  nothing : IsInner e → r ≡ internal_server_error → Told dates e r
  displayed :
      some r.status ≡ status_of e
      → r.detail ≡ display dates e
      → r.retry_after ≡ none
      → Told dates e r
  to_wait :
      (until : ℕ)
      → e ≡ too_many_requests until
      → r.status ≡ 429
      → r.retry_after ≡ some (dates.http_date until)
      → Told dates e r
  in_maintenance : e ≡ read_only_mode → r.status ≡ 503 → Told dates e r

module _ (dates : Dates) where
  response-outermost : (e : AppError) → response dates e ≡ response dates (outermost e)
  unfolding response
  response-outermost (chained error behind) = response-outermost error
  response-outermost (ok_error t) = refl
  response-outermost (bad_request t) = refl
  response-outermost (server_error t) = refl
  response-outermost (internal t) = refl
  response-outermost (foreign t) = refl
  response-outermost (ownership_invitation_expired t) = refl
  response-outermost not_found = refl
  response-outermost forbidden = refl
  response-outermost read_only_mode = refl
  response-outermost metrics_disabled = refl
  response-outermost insecurely_generated_token_revoked = refl
  response-outermost (too_many_requests t) = refl
  response-outermost (account_locked t u) = refl

  -- `unwrap_or`.
  abbrev or_internal : Option Response → Response
  or_internal none = internal_server_error
  or_internal (some r) = r

  answer-response : (e : AppError) → answer dates (err e) ≡ or_internal (response dates e)
  unfolding answer call known_error_to_json ensure_well_formed_500
  answer-response e = elim (Option-cases (response dates e)) [
    | inl h ↦ rw (answer, call, h) refl
    | inr (r, h) ↦ rw (answer, call, h) refl
  ]

  answer_of : (e : AppError) → Told dates (outermost e) (answer dates (err (outermost e)))
  unfolding answer call response known_error_to_json ensure_well_formed_500 json_error display
  answer_of (chained error behind) = answer_of error
  answer_of (ok_error t) = displayed refl refl refl
  answer_of (bad_request t) = displayed refl refl refl
  answer_of (server_error t) = displayed refl refl refl
  answer_of (internal t) = nothing tt refl
  answer_of (foreign t) = nothing tt refl
  answer_of (ownership_invitation_expired t) = displayed refl refl refl
  answer_of not_found = displayed refl refl refl
  answer_of forbidden = displayed refl refl refl
  answer_of read_only_mode = in_maintenance refl refl
  answer_of metrics_disabled = displayed refl refl refl
  answer_of insecurely_generated_token_revoked = displayed refl refl refl
  answer_of (too_many_requests t) = to_wait t refl refl refl
  answer_of (account_locked t u) = displayed refl refl refl

-- What a client is told of an error depends on the outermost error of its chain only. If that is one
-- for the log or one of a library, then it is the text "Internal Server Error" with status 500,
-- whatever the errors say; else the status is that of the kind of error, and the text what the error
-- displays, but for too many requests, which are answered with the time to wait for in the header
-- `Retry-After` too, and for the mode without writes.
pub answer-outermost :
    (dates : Dates) (e : AppError)
    → Told dates (outermost e) (answer dates (err e))
      × (answer dates (err e) ≡ answer dates (err (outermost e)))
answer-outermost dates e =
    let same : answer dates (err e) ≡ answer dates (err (outermost e)) =
      answer-response dates e
      ∙ ap (or_internal dates) (response-outermost dates e)
      ∙ sym (answer-response dates (outermost e)) in
    (subst (λ r. Told dates (outermost e) r) (sym same) (answer_of dates e), same)
