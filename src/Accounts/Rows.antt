-- ===== src/Accounts/Rows.antt =====
-- The rows of the table `emails`, with the triggers of
-- migrations/2017-09-23-182408_move_tokens_to_emails_table/up.sql.
use cargo_website.Base.{
  ℕ, ◌+◌, Bool, true, false, [], ◌∷◌, ◌++◌, map, Option, none, some, if◌then◌else◌, ◌==◌, find,
}
use cargo_website.Base.Text.{Text, text_eq}
use cargo_website.Accounts.{Email, State, Outside}

abbrev pub email_of : ℕ → State → Option Email
email_of user_id s = find (λ (e : Email). e.user_id == user_id) s.emails

-- `UPDATE emails ... WHERE user_id = ...`, or `WHERE token = ...`.
abbrev pub update_where : (Email → Bool) → (Email → Email) → State → State
update_where test change s = record s {
  emails = map (λ e. if test e then change e else e) s.emails;
}

-- The row that is inserted, with the defaults of its columns.
abbrev pub fresh_row : Outside → ℕ → Text → ℕ → Email
fresh_row out user_id email id = record {
  id = id;
  user_id = user_id;
  email = email;
  verified = false;
  token = out.random_string;
  token_generated_at = some out.now;
}

unfoldable pub insert_row : Outside → ℕ → Text → State → State
insert_row out user_id email s = record s {
  emails = s.emails ++ fresh_row out user_id email s.next_email_id ∷ [];
  next_email_id = s.next_email_id + 1;
}

-- Another address is given another token, and is not verified.
unfoldable pub reconfirm : Outside → Text → Email → Email
reconfirm out email e =
    if text_eq email e.email
    then e
    else record e { email = email; verified = false; token = out.random_string }

-- `NewEmail` with `ON CONFLICT (user_id) DO UPDATE`.
unfoldable pub upsert_row : Outside → ℕ → Text → State → State
unfolding insert_row reconfirm
upsert_row out user_id email s = elim (email_of user_id s) [
  | some _ ↦ update_where (λ e. e.user_id == user_id) (reconfirm out email) s
  | none ↦ insert_row out user_id email s
]

-- `SET token = DEFAULT`.
unfoldable pub regenerate : Outside → Email → Email
regenerate out e = record e { token = out.random_string; token_generated_at = some out.now }

unfoldable pub verify : Email → Email
verify e = record e { verified = true }
