-- ===== src/Responses/Tests.antt =====
-- An error of the input behind one for the user, and one behind an internal one.
use cargo_website.Base.{◌≡◌, refl, [], ◌∷◌, some, err}
use cargo_website.Base.Text.{codes, starts_with}
use cargo_website.Responses.{
  AppError, database_error, bad_request, internal, foreign, chained, read_only_mode, Dates,
  json_error, display, response, cause, call, from_diesel, internal_server_error,
  known_error_to_json, ensure_well_formed_500, answer,
}
use cargo_website.Responses.Answered.{Told, answer-outermost}

abbrev dates : Dates
dates = record { http_date = λ d. d ∷ []; readable = λ d. d ∷ [] }

abbrev invalid_digit : AppError
invalid_digit =
    chained (bad_request (codes "outer"))
      (chained (internal (codes "middle")) (foreign (codes "inner")))

logged_cause : (call dates (err invalid_digit)).1 ≡ some (codes "middle caused by inner")
unfolding call response cause display json_error
logged_cause = refl

inner_is_hidden :
    answer dates (err (chained (internal (codes "a")) (bad_request (codes "b"))))
    ≡ internal_server_error
unfolding answer call response known_error_to_json ensure_well_formed_500
inner_is_hidden = refl

in_read_only_mode :
    from_diesel
      (λ _. [])
      (database_error (codes "cannot execute UPDATE in a read-only transaction"))
    ≡ read_only_mode
unfolding from_diesel starts_with
in_read_only_mode = refl

answer-outermost_example :
    Told dates (bad_request (codes "outer")) (answer dates (err invalid_digit))
    × (answer dates (err invalid_digit) ≡ answer dates (err (bad_request (codes "outer"))))
answer-outermost_example = answer-outermost dates invalid_digit
