-- ===== src/Auth/Revoked.antt =====
-- A token that has been revoked is found no more.
use cargo_website.Base.{
  ℕ, ◌≡◌, ◌≢◌, ◌<◌, inl, inr, refl, subst, arith, Bool, true, false, not, ◌||◌, List, map, some, ok,
  ok_or, ◌==◌, if◌then◌else◌, find, find-All, find-eq-some, All, All-intro, All-append, All-map,
  All-map_image, Bool-cases, bind-eq-ok,
}
use cargo_website.Base.Text.{Text}
use cargo_website.Owners.Tables.{User}
use cargo_website.Auth.Tokens.{
  api, parse, insert, matches, use_row, find_token, find_by_api_token, ApiToken, ApiTokens,
  SecureToken, not_found, insecurely_generated_token_revoked,
}
use cargo_website.Auth.Users.{Request, authenticate}
use cargo_website.Auth.Routes.{revoke_where, revoke_current}

-- No row with the id can be used.
abbrev unusable : ℕ → ApiToken → Bool
unusable id t = not (t.id == id) || t.revoked

pub record IsDead (id : ℕ) (db : ApiTokens) : Type 0 where
  pub rows : All (λ t. unusable id t ≡ true) db.rows
  pub below : id < db.next_id

-- What happens to the table of tokens.
pub data Later (digest : Text → List ℕ) (db : ApiTokens) : ApiTokens → Type 0 where
  still : Later digest db db
  created :
      (sample : ℕ → ℕ) (now user_id : ℕ) (name : Text) {db' : ApiTokens}
      → Later digest db db'
      → Later digest db (insert digest sample now user_id name db').1
  used :
      (read_only : Bool) (now : ℕ) (plaintext : Text) (t : ApiToken) {db' db'' : ApiTokens}
      → Later digest db db'
      → find_by_api_token digest read_only now plaintext db' ≡ ok (t, db'')
      → Later digest db db''
  revoked :
      (test : ApiToken → Bool) {db' : ApiTokens}
      → Later digest db db'
      → Later digest db (revoke_where test db')

module _ (digest : Text → List ℕ) (id : ℕ) where
  use_row-unusable :
      (now : ℕ) (token_ : SecureToken) (t : ApiToken)
      → unusable id t ≡ true
      → unusable id (use_row digest now token_ t) ≡ true
  use_row-unusable now token_ t h = elim (Bool-cases (matches digest token_ t)) [
    | inl e ↦ rw e h
    | inr e ↦ rw e h
  ]

  rows-unusable :
      (read_only : Bool) (now : ℕ) (token_ : SecureToken) (rows : List ApiToken)
      → All (λ t. unusable id t ≡ true) rows
      → All
          (λ t. unusable id t ≡ true)
          (if read_only then rows else map (use_row digest now token_) rows)
  rows-unusable true now token_ rows h = h
  rows-unusable false now token_ rows h =
      All-map_image (λ t. unusable id t ≡ true) (use_row digest now token_) rows
        (All-map (λ t k. use_row-unusable now token_ t k) rows h)

  other_id :
      (token_ : SecureToken) (t : ApiToken)
      → matches digest token_ t ≡ true
      → unusable id t ≡ true
      → t.id ≢ id
  unfolding matches
  other_id token_ t m h = ground arith

  find_token-cases :
      (read_only : Bool) (now : ℕ) (token_ : SecureToken) (db : ApiTokens) (t : ApiToken)
      (db' : ApiTokens)
      → IsDead id db
      → find_token digest read_only now token_ db ≡ ok (t, db')
      → IsDead id db' × (t.id ≢ id)
  unfolding find_token
  find_token-cases read_only now token_ db t db' d h =
      let rows = if read_only then db.rows else map (use_row digest now token_) db.rows in
      let (t0, e, k) = bind-eq-ok (ok_or (find (matches digest token_) rows) not_found) _ h in
      let found : find (matches digest token_) rows ≡ some t = ground arith in
      let same : record db { rows = rows } ≡ db' = ground arith in
      let dead = rows-unusable read_only now token_ db.rows d.rows in
      (
        subst (IsDead id) same (record { rows = dead; below = d.below }),
        other_id token_ t (find-eq-some (matches digest token_) rows t found)
            (find-All (matches digest token_) (λ t. unusable id t ≡ true) rows t found dead),
      )

  find_by_api_token-cases :
      (read_only : Bool) (now : ℕ) (plaintext : Text) (db : ApiTokens) (t : ApiToken)
      (db' : ApiTokens)
      → IsDead id db
      → find_by_api_token digest read_only now plaintext db ≡ ok (t, db')
      → IsDead id db' × (t.id ≢ id)
  unfolding find_by_api_token
  find_by_api_token-cases read_only now plaintext db t db' d h =
      let (token_, _, k) =
        bind-eq-ok (ok_or (parse digest api plaintext) insecurely_generated_token_revoked) _ h in
      find_token-cases read_only now token_ db t db' d k

  Later-IsDead : {db db' : ApiTokens} → Later digest db db' → IsDead id db → IsDead id db'
  unfolding insert revoke_where
  Later-IsDead still d = d
  Later-IsDead (created sample now user_id name {db' = db'} past) d =
      let h = Later-IsDead past d in
      record {
        rows =
            All-append (λ t. unusable id t ≡ true) db'.rows _ h.rows (ground (arith, h.below), tt);
        below = omega (arith, h.below);
      }
  Later-IsDead (used read_only now plaintext t {db' = db'} past e) d =
      (find_by_api_token-cases read_only now plaintext db' t _ (Later-IsDead past d) e).0
  Later-IsDead (revoked test {db' = db'} past) d =
      let h = Later-IsDead past d in
      record {
        rows =
            All-map_image (λ t. unusable id t ≡ true) _ db'.rows
              (All-map (λ t k. revoked_too (test t) t k) db'.rows h.rows);
        below = h.below;
      }
    where
      revoked_too :
          (b : Bool) (t : ApiToken)
          → unusable id t ≡ true
          → unusable id (if b then record t { revoked = true } else t) ≡ true
      revoked_too true t k = ground arith
      revoked_too false t k = k

revoke_where-IsDead :
    (id : ℕ) (db : ApiTokens) → id < db.next_id → IsDead id (revoke_where (λ t. t.id == id) db)
unfolding revoke_where
revoke_where-IsDead id db h = record {
  rows =
      All-map_image (λ t. unusable id t ≡ true) _ db.rows (All-intro db.rows (λ t _. ground arith));
  below = h;
}

-- If a request revokes the token that it was made with, then that token is found no more: not by any
-- text, at any time, however tokens are created, used and revoked in between. The token's id has to be
-- below the next id of the table.
pub revoke_current-dead :
    (digest : Text → List ℕ) (read_only : Bool) (now : ℕ) (allowed : List Text) (users : List User)
    (req : Request) (db found db' later : ApiTokens) (user : User) (id : ℕ)
    → authenticate digest read_only now allowed users req db
      ≡ ok (record { user = user; token_id = some id }, found)
    → id < found.next_id
    → revoke_current digest read_only now allowed users req db ≡ ok db'
    → Later digest db' later
    → (read_only' : Bool) (now' : ℕ) (plaintext : Text) (t : ApiToken) (end : ApiTokens)
    → find_by_api_token digest read_only' now' plaintext later ≡ ok (t, end)
    → t.id ≢ id
unfolding revoke_current
revoke_current-dead digest read_only now allowed users req db found db' later user id a h r past ro
      n p t end f =
    let same : revoke_where (λ t. t.id == id) found ≡ db' =
      (let step : revoke_current digest read_only now allowed users req db
            ≡ ok (revoke_where (λ t. t.id == id) found) =
          rw a refl in
        ground arith) in
    (find_by_api_token-cases digest id ro n p later t end
      (Later-IsDead digest id past (subst (IsDead id) same (revoke_where-IsDead id found h))) f).1
