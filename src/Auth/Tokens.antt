-- ===== src/Auth/Tokens.antt =====
-- src/util/token.rs and src/models/token.rs: tokens, of which the database keeps the hash.
use cargo_website.Base.{
  ℕ, zero, suc, Bool, true, false, not, ◌&&◌, List, [], ◌∷◌, ◌++◌, map, Option, none, some, Result,
  ok, ◌>>=◌, ok_or, if◌then◌else◌, find, get_or,
}
use cargo_website.Base.Text.{Text, codes, text_eq, starts_with}

abbrev pub token_length : ℕ
token_length = 32

pub data SecureTokenKind : Type 0 where
  api : SecureTokenKind

abbrev pub variants : List SecureTokenKind
variants = api ∷ []

abbrev pub prefix : SecureTokenKind → Text
prefix api = codes "cio"

unfoldable pub from_token : Text → Option SecureTokenKind
from_token token = find (λ v. starts_with token (prefix v)) variants

abbrev pub is_kind : SecureTokenKind → Option SecureTokenKind → Bool
is_kind api (some api) = true
is_kind api none = false

abbrev pub chars : Text
chars = codes "abcdefghijklmnopqrstuvwxyzABCDEFGHIJKLMNOPQRSTUVWXYZ0123456789"

-- The samples of the random number generator, from the `i`th on.
unfoldable pub generate_secure_alphanumeric_string : (ℕ → ℕ) → ℕ → ℕ → Text
generate_secure_alphanumeric_string sample zero i = []
generate_secure_alphanumeric_string sample (suc len) i =
    get_or chars (sample i) 0 ∷ generate_secure_alphanumeric_string sample len (suc i)

-- The SHA-256 digest of a text.
pub record SecureToken : Type 0 where
  pub sha256 : List ℕ

pub record NewSecureToken : Type 0 where
  pub plaintext : Text
  pub inner : SecureToken

-- A row of `api_tokens`.
pub record ApiToken : Type 0 where
  pub id : ℕ
  pub user_id : ℕ
  pub token : SecureToken
  pub name : Text
  pub created_at : ℕ
  pub last_used_at : Option ℕ
  pub revoked : Bool

pub record CreatedApiToken : Type 0 where
  pub model : ApiToken
  pub plaintext : Text

pub record ApiTokens : Type 0 where
  pub rows : List ApiToken
  pub next_id : ℕ

pub data Error : Type 0 where
  insecurely_generated_token_revoked not_found : Error

module _ (digest : Text → List ℕ) where
  unfoldable pub generate : (ℕ → ℕ) → SecureTokenKind → NewSecureToken
  unfolding generate_secure_alphanumeric_string
  generate sample kind =
      let plaintext = prefix kind ++ generate_secure_alphanumeric_string sample token_length 0 in
      record { plaintext = plaintext; inner = record { sha256 = digest plaintext } }

  unfoldable pub parse : SecureTokenKind → Text → Option SecureToken
  unfolding from_token
  parse kind plaintext =
      if not (is_kind kind (from_token plaintext))
      then none
      else some (record { sha256 = digest plaintext })

  unfoldable pub insert : (ℕ → ℕ) → ℕ → ℕ → Text → ApiTokens → CreatedApiToken × ApiTokens
  insert sample now user_id name db =
      let token = generate sample api in
      let model : ApiToken = record {
        id = db.next_id;
        user_id = user_id;
        token = token.inner;
        name = name;
        created_at = now;
        last_used_at = none;
        revoked = false;
      } in
      (
        record { model = model; plaintext = token.plaintext },
        record { rows = db.rows ++ model ∷ []; next_id = suc db.next_id },
      )

  -- The rows of `tokens`: not revoked, and with the digest.
  unfoldable pub matches : SecureToken → ApiToken → Bool
  matches token_ t = not t.revoked && text_eq t.token.sha256 token_.sha256

  abbrev pub use_row : ℕ → SecureToken → ApiToken → ApiToken
  use_row now token_ t = if matches token_ t then record t { last_used_at = some now } else t

  -- The update of `last_used_at`, or the plain query where the database is read-only.
  unfoldable pub find_token :
      Bool → ℕ → SecureToken → ApiTokens → Result Error (ApiToken × ApiTokens)
  find_token read_only now token_ db =
      let rows = if read_only then db.rows else map (use_row now token_) db.rows in
      do t ← ok_or (find (matches token_) rows) not_found; ok (t, record db { rows = rows })

  unfoldable pub find_by_api_token :
      Bool → ℕ → Text → ApiTokens → Result Error (ApiToken × ApiTokens)
  find_by_api_token read_only now plaintext db = do
    token_ ← ok_or (parse api plaintext) insecurely_generated_token_revoked
    find_token read_only now token_ db
