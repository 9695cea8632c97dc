-- ===== src/Auth/Routes.antt =====
-- src/controllers/token.rs: listing, creating and revoking tokens.
use cargo_website.Base.{
  ℕ, Bool, true, false, not, ◌&&◌, List, [], ◌∷◌, Option, none, some, Result, ok, err, ◌>>=◌, ok_or,
  ltb, leb, ◌==◌, if◌then◌else◌, filter, map, length,
}
use cargo_website.Base.Int.{ℤ, pos, negsuc}
use cargo_website.Base.Text.{Text}
use cargo_website.Base.Decimal.{parse_i32}
use cargo_website.Io.{Reader, read_fill}
use cargo_website.Io
use cargo_website.Owners.Tables.{User}
use cargo_website.Auth.Tokens.{ApiToken, ApiTokens, CreatedApiToken, insert}
use cargo_website.Auth.Users.{AuthenticatedUser, Request, authenticate, forbid_api_token_auth}
use cargo_website.Auth.Users

pub data Error : Type 0 where
  unauthorized : Users.Error → Error
  unreadable : Io.Error → Error
  missing_content_length too_long not_utf8 invalid_request empty_name : Error
  token_made_by_token too_many_tokens invalid_id token_not_provided : Error

abbrev pub authorized {ℓ} : {A : Type ℓ} → Result Users.Error A → Result Error A
authorized (ok a) = ok a
authorized (err e) = err (unauthorized e)

abbrev pub readable {ℓ} : {A : Type ℓ} → Result Io.Error A → Result Error A
readable (ok a) = ok a
readable (err e) = err (unreadable e)

-- `ORDER BY created_at DESC`.
unfoldable pub insert_latest : ApiToken → List ApiToken → List ApiToken
insert_latest t [] = t ∷ []
insert_latest t (s ∷ ts) =
    if leb s.created_at t.created_at then t ∷ s ∷ ts else s ∷ insert_latest t ts

unfoldable pub latest_first : List ApiToken → List ApiToken
latest_first [] = []
latest_first (t ∷ ts) = insert_latest t (latest_first ts)

abbrev pub belongs_to : User → ApiToken → Bool
belongs_to u t = t.user_id == u.id

abbrev pub has_id : ℤ → ApiToken → Bool
has_id (pos id) t = t.id == id
has_id (negsuc _) t = false

-- `SET revoked = true` on the rows that a test finds.
unfoldable pub revoke_where : (ApiToken → Bool) → ApiTokens → ApiTokens
revoke_where test db = record db {
  rows = map (λ t. if test t then record t { revoked = true } else t) db.rows;
}

-- The body of a request to create a token, read as far as its length says.
pub record Body : Type 0 where
  pub content_length : Option ℕ
  pub body : Reader

-- What the route uses of UTF-8 and of serde: the text of the bytes, and the name in a request's JSON.
pub record Parsers : Type 0 where
  pub from_utf8 : List ℕ → Option Text
  pub name_of : Text → Option Text

abbrev pub is_blank : Text → Bool
is_blank [] = true
is_blank (_ ∷ _) = false

unfoldable pub read_name : Parsers → Body → Result Error Text
read_name parsers req = do
  size ← ok_or req.content_length missing_content_length
  bytes ← (if ltb 2000 size then err too_long else readable (read_fill size req.body))
  json ← ok_or (parsers.from_utf8 bytes.0) not_utf8
  name ← ok_or (parsers.name_of json) invalid_request
  if is_blank name then err empty_name else ok name

module _ (digest : Text → List ℕ) (read_only : Bool) (now : ℕ) (allowed_origins : List Text)
    (users : List User) where
  abbrev pub caller : Request → ApiTokens → Result Error (AuthenticatedUser × ApiTokens)
  caller req db = authorized (authenticate digest read_only now allowed_origins users req db)

  unfoldable pub list : Request → ApiTokens → Result Error (List ApiToken × ApiTokens)
  list req db = do
    found ← caller req db
    user ← authorized (forbid_api_token_auth found.0)
    ok (latest_first (filter (λ t. belongs_to user.user t && not t.revoked) found.1.rows), found.1)

  -- The checks behind the authentication, and the insertion.
  unfoldable pub create :
      (ℕ → ℕ) → Text → AuthenticatedUser × ApiTokens → Result Error (CreatedApiToken × ApiTokens)
  create sample name (found, db) = elim found.token_id [
    | some _ ↦ err token_made_by_token
    | none ↦
        if leb 500 (length (filter (belongs_to found.user) db.rows))
        then err too_many_tokens
        else ok (insert digest sample now found.user.id name db)
  ]

  unfoldable pub new :
      Parsers → (ℕ → ℕ) → Body → Request → ApiTokens → Result Error (CreatedApiToken × ApiTokens)
  new parsers sample body req db = do
    name ← read_name parsers body
    found ← caller req db
    create sample name found

  unfoldable pub revoke : Text → Request → ApiTokens → Result Error ApiTokens
  revoke id req db = do
    number ← ok_or (parse_i32 id) invalid_id
    found ← caller req db
    ok (revoke_where (λ t. belongs_to found.0.user t && has_id number t) found.1)

  unfoldable pub revoke_current : Request → ApiTokens → Result Error ApiTokens
  revoke_current req db = do
    found ← caller req db
    id ← ok_or found.0.token_id token_not_provided
    ok (revoke_where (λ t. t.id == id) found.1)
