-- ===== src/Auth/Tests.antt =====
-- A token that is created, used and revoked. The digest is the text itself.
use cargo_website.Base.{
  ℕ, ◌≡◌, ◌≢◌, refl, arith, Bool, true, false, List, [], ◌∷◌, Option, none, some, ok, err, All,
}
use cargo_website.Base.Int.{pos}
use cargo_website.Base.Text.{Text, codes, text_eq, starts_with}
use cargo_website.Owners.Tables.{User}
use cargo_website.Auth.Tokens.{
  ApiToken, ApiTokens, from_token, parse, generate, insert, matches, find_token, find_by_api_token,
}
use cargo_website.Auth.Users.{
  Request, authenticate, authenticate_user, by_token, verify_origin, find_user, still_locked,
  bad_origin,
}
use cargo_website.Auth.Routes.{revoke_where, revoke_current}
use cargo_website.Auth.Granted.{IsGranted, authenticate-IsGranted}
use cargo_website.Auth.Life.{insert-find}
use cargo_website.Auth.Revoked.{still, revoke_current-dead}

abbrev digest : Text → List ℕ
digest s = s

abbrev alice : User
alice = record {
  id = 1;
  gh_access_token = codes "a";
  gh_login = codes "alice";
  gh_id = pos 11;
  account_lock_reason = none;
  account_lock_until = none;
}

abbrev token_row : Option ℕ → Bool → ApiToken
token_row used gone = record {
  id = 1;
  user_id = 1;
  token = record { sha256 = codes "ciox" };
  name = codes "laptop";
  created_at = 5;
  last_used_at = used;
  revoked = gone;
}

abbrev table : Option ℕ → Bool → ApiTokens
table used gone = record { rows = token_row used gone ∷ []; next_id = 2 }

abbrev with_header : Request
with_header = record {
  origins = codes "https://crates.io" ∷ [];
  session_user_id = none;
  authorization = some (codes "ciox");
}

abbrev origins : List Text
origins = codes "https://crates.io" ∷ []

other_site :
    authenticate digest false 7 origins
      (alice ∷ [])
      (record with_header { origins = codes "https://evil.example" ∷ [] })
      (table none false)
    ≡ err (bad_origin (codes "https://evil.example"))
unfolding authenticate verify_origin text_eq
other_site = refl

by_alice :
    authenticate digest false 7 origins (alice ∷ []) with_header (table none false)
    ≡ ok (record { user = alice; token_id = some 1 }, table (some 7) false)
unfolding authenticate authenticate_user by_token verify_origin find_user still_locked
    find_by_api_token find_token parse from_token matches text_eq starts_with
by_alice = refl

authenticate-IsGranted_example :
    All (λ _. true ≡ true) origins
    × IsGranted digest
        (alice ∷ [])
        with_header
        (table none false)
        (record { user = alice; token_id = some 1 })
    × (still_locked digest false 7 alice ≡ false)
unfolding text_eq
authenticate-IsGranted_example =
    authenticate-IsGranted digest false 7 origins (alice ∷ []) with_header (table none false)
      (record { user = alice; token_id = some 1 }) (table (some 7) false) by_alice

insert-find_example :
    (t : ApiToken) × (db' : ApiTokens) × (find_by_api_token digest true 9
        (insert digest (λ i. i) 8 4 (codes "ci") (table none false)).0.plaintext
        (insert digest (λ i. i) 8 4 (codes "ci") (table none false)).1
      ≡ ok (t, db'))
    × (t.id ≡ 2)
    × (t.user_id ≡ 4)
unfolding text_eq generate
insert-find_example =
    insert-find digest (λ i. i) 8 4 (codes "ci") (table none false) true 9 (refl, tt)

-- The text of another token, in a table where it finds that token.
abbrev other : ApiToken
other = record {
  id = 3;
  user_id = 1;
  token = record { sha256 = codes "cioy" };
  name = codes "desktop";
  created_at = 5;
  last_used_at = none;
  revoked = false;
}

abbrev both : Option ℕ → Bool → ApiTokens
both used gone = record { rows = token_row used gone ∷ other ∷ []; next_id = 4 }

granted :
    authenticate digest false 7 origins (alice ∷ []) with_header (both none false)
    ≡ ok (record { user = alice; token_id = some 1 }, both (some 7) false)
unfolding authenticate authenticate_user by_token verify_origin find_user still_locked
    find_by_api_token find_token parse from_token matches text_eq starts_with
granted = refl

revoked_row :
    revoke_current digest false 7 origins (alice ∷ []) with_header (both none false)
    ≡ ok (both (some 7) true)
unfolding authenticate authenticate_user by_token verify_origin find_user still_locked
    find_by_api_token find_token parse from_token matches text_eq starts_with revoke_current
    revoke_where
revoked_row = refl

found_other :
    find_by_api_token digest true 8 (codes "cioy") (both (some 7) true)
    ≡ ok (other, both (some 7) true)
unfolding find_by_api_token find_token parse from_token matches text_eq starts_with
found_other = refl

revoke_current-dead_example : ◌≢◌ {A = ℕ} 3 1
revoke_current-dead_example =
    revoke_current-dead digest false 7 origins (alice ∷ []) with_header (both none false)
      (both (some 7) false) (both (some 7) true) (both (some 7) true) alice 1 granted (omega arith)
      revoked_row still true 8 (codes "cioy") other (both (some 7) true) found_other
