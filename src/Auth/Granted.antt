-- ===== src/Auth/Granted.antt =====
-- Which requests are authenticated, and as whom.
use cargo_website.Base.{
  ok_or-eq-ok, ℕ, ◌≡◌, inl, inr, refl, sym, ap, subst, ◌∙◌, arith, Bool, true, false, not, List,
  map, Option, none, some, Result, ok, err, ◌>>=◌, ok_or, if◌then◌else◌, any, find, find-All,
  find-eq-some, find-eq-none, All-map, All, Any, All-intro, All-map_image, Bool-cases, Option-cases,
  bind-eq-ok,
}
use cargo_website.Base.Int.{ℤ, pos}
use cargo_website.Base.Text.{Text, text_eq, text_eq_iff}
use cargo_website.Owners.Tables.{User}
use cargo_website.Auth.Tokens
use cargo_website.Auth.Users
use cargo_website.Auth.Tokens.{
  insecurely_generated_token_revoked, SecureTokenKind, from_token, ApiToken, ApiTokens, SecureToken,
  api, not_found, parse, matches, use_row, find_token, find_by_api_token,
}
use cargo_website.Auth.Users.{
  Request, AuthenticatedUser, verify_origin, find_user, from_session, by_token, authenticate_user,
  still_locked, authenticate, map_err, no_user_for_token, bad_origin, no_user_for_cookie,
  not_authenticated,
}

-- A row that was not revoked and has the digest, as the query that finds it leaves it.
pub record IsRow (rows : List ApiToken) (hash : List ℕ) (t : ApiToken) : Type 0 where
  pub row : ApiToken
  pub stored : Any (λ y. y ≡ row) rows
  pub same_id : row.id ≡ t.id
  pub same_user : row.user_id ≡ t.user_id
  pub live : row.revoked ≡ false
  pub same_hash : row.token.sha256 ≡ hash

matching_row :
    (digest : Text → List ℕ) (token_ : SecureToken) (t : ApiToken)
    → matches digest token_ t ≡ true
    → (t.revoked ≡ false) × (t.token.sha256 ≡ token_.sha256)
unfolding matches
matching_row digest token_ t h =
    (ground arith, (text_eq_iff t.token.sha256 token_.sha256).0 (ground arith))

module _ (digest : Text → List ℕ) (now : ℕ) (token_ : SecureToken) (rows : List ApiToken) where
  -- A row, as it is in the table or with the time of its use.
  abbrev Copy : ApiToken → Type 0
  Copy t =
      (row : ApiToken) × Any (λ y. y ≡ row) rows
      × (row.id ≡ t.id)
      × (row.user_id ≡ t.user_id)
      × (row.revoked ≡ t.revoked)
      × (row.token ≡ t.token)

  used-Copy : (t : ApiToken) → Any (λ y. y ≡ t) rows → Copy (use_row digest now token_ t)
  used-Copy t m = elim (Bool-cases (matches digest token_ t)) [
    | inl e ↦ rw e (t, m, refl, refl, refl, refl)
    | inr e ↦ rw e (t, m, refl, refl, refl, refl)
  ]

  rows-Copy :
      (read_only : Bool)
      → All Copy (if read_only then rows else map (use_row digest now token_) rows)
  rows-Copy true = All-intro rows (λ t m. (t, m, refl, refl, refl, refl))
  rows-Copy false = All-map_image Copy (use_row digest now token_) rows (All-intro rows used-Copy)

pub find_token-IsRow :
    (digest : Text → List ℕ) (read_only : Bool) (now : ℕ) (token_ : SecureToken) (db : ApiTokens)
    (t : ApiToken) (db' : ApiTokens)
    → find_token digest read_only now token_ db ≡ ok (t, db')
    → IsRow db.rows token_.sha256 t
unfolding find_token
find_token-IsRow digest read_only now token_ db t db' h =
    let rows = if read_only then db.rows else map (use_row digest now token_) db.rows in
    let (t0, e, k) = bind-eq-ok (ok_or (find (matches digest token_) rows) not_found) _ h in
    let found : find (matches digest token_) rows ≡ some t = ground arith in
    let (row, m, i, u, r, k') =
      find-All (matches digest token_) (Copy digest now token_ db.rows) rows t found
        (rows-Copy digest now token_ db.rows read_only) in
    let (live, hash) =
      matching_row digest token_ t (find-eq-some (matches digest token_) rows t found) in
    record {
      row = row;
      stored = m;
      same_id = i;
      same_user = u;
      live = r ∙ live;
      same_hash = ap (λ (t : SecureToken). t.sha256) k' ∙ hash;
    }

-- Who a request comes from, by the session's cookie, or by a token where the session names no user.
pub data IsGranted (digest : Text → List ℕ) (users : List User) (req : Request) (tokens : ApiTokens)
    : AuthenticatedUser → Type 0 where
  by_cookie :
      (id : ℤ) (u : User)
      → from_session req ≡ some id
      → find_user id users ≡ some u
      → IsGranted digest users req tokens (record { user = u; token_id = none })
  by_header :
      (header_value : Text) (t : ApiToken) (u : User)
      → from_session req ≡ none
      → req.authorization ≡ some header_value
      → from_token header_value ≡ some api
      → IsRow tokens.rows (digest header_value) t
      → find_user (pos t.user_id) users ≡ some u
      → IsGranted digest users req tokens (record { user = u; token_id = some t.id })

found_token :
    (r : Result Tokens.Error (ApiToken × ApiTokens)) (t : ApiToken × ApiTokens)
    → map_err r ≡ ok t
    → r ≡ ok (t.0, t.1)
found_token (ok t) t' h = ground arith
found_token (err e) t' h = cc

module _ (digest : Text → List ℕ) (read_only : Bool) (now : ℕ) (users : List User) where
  parse_lem :
      (s : Text) (token_ : SecureToken)
      → parse digest api s ≡ some token_
      → (from_token s ≡ some api) × (token_.sha256 ≡ digest s)
  unfolding parse
  parse_lem s token_ h = by_kind (from_token s) refl
    where
      by_kind :
          (k : Option SecureTokenKind)
          → from_token s ≡ k
          → (from_token s ≡ some api) × (token_.sha256 ≡ digest s)
      by_kind none e = let nothing : parse digest api s ≡ none = rw (parse, e) refl in absurd (cc)
      by_kind (some api) e =
          let hashed : parse digest api s ≡ some (record { sha256 = digest s }) =
            rw (parse, e) refl in
          (e, ground arith)

  by_token-IsGranted :
      (req : Request) (header_value : Text) (tokens : ApiTokens) (a : AuthenticatedUser)
      (tokens' : ApiTokens)
      → from_session req ≡ none
      → req.authorization ≡ some header_value
      → by_token digest read_only now users header_value tokens ≡ ok (a, tokens')
      → IsGranted digest users req tokens a
  unfolding by_token find_by_api_token
  by_token-IsGranted req header_value tokens a tokens' e f h =
      let (t, g, k) =
        bind-eq-ok (map_err (find_by_api_token digest read_only now header_value tokens)) _ h in
      let (u, g', k') =
        bind-eq-ok (ok_or (find_user (pos t.0.user_id) users) no_user_for_token) _ k in
      let (token_, l, m) =
        bind-eq-ok (ok_or (parse digest api header_value) insecurely_generated_token_revoked) _
          (found_token _ _ g) in
      let (kind, hash) = parse_lem header_value token_ (ok_or-eq-ok _ _ _ l) in
      let row : IsRow tokens.rows token_.sha256 t.0 =
        find_token-IsRow digest read_only now token_ tokens t.0 t.1 m in
      let same : record { user = u; token_id = some t.0.id } ≡ a = ground arith in
      subst (IsGranted digest users req tokens) same (
        by_header header_value t.0 u e f kind (subst (λ d. IsRow tokens.rows d t.0) hash row)
          (ok_or-eq-ok _ _ _ g'))

  found_user :
      (req : Request) (tokens : ApiTokens) (a : AuthenticatedUser) (tokens' : ApiTokens)
      → authenticate_user digest read_only now users req tokens ≡ ok (a, tokens')
      → IsGranted digest users req tokens a
  unfolding authenticate_user
  found_user req tokens a tokens' h = by_session (from_session req) refl
    where
      by_authorization :
          (o : Option Text)
          → from_session req ≡ none
          → req.authorization ≡ o
          → IsGranted digest users req tokens a
      by_authorization none e f =
          let refusal : authenticate_user digest read_only now users req tokens
              ≡ err not_authenticated =
            rw (authenticate_user, e, f) refl in
          absurd (cc)
      by_authorization (some header_value) e f =
          let same : authenticate_user digest read_only now users req tokens
              ≡ by_token digest read_only now users header_value tokens =
            rw (authenticate_user, e, f) refl in
          by_token-IsGranted req header_value tokens a tokens' e f (sym same ∙ h)

      by_session : (o : Option ℤ) → from_session req ≡ o → IsGranted digest users req tokens a
      by_session none e = by_authorization req.authorization e refl
      by_session (some id) e =
          let same : authenticate_user digest read_only now users req tokens ≡ (do
            u ← ok_or (find_user id users) no_user_for_cookie
            ok (record { user = u; token_id = none }, tokens)) =
            rw (authenticate_user, e) refl in
          let (u, g, k) =
            bind-eq-ok (ok_or (find_user id users) no_user_for_cookie) _ (sym same ∙ h) in
          let is_a : record { user = u; token_id = none } ≡ a = ground arith in
          subst (IsGranted digest users req tokens) is_a (by_cookie id u e (ok_or-eq-ok _ _ _ g))

verify_origin-All :
    (allowed : List Text) (req : Request) (checked : Bool)
    → verify_origin allowed req ≡ ok checked
    → All (λ o. any (λ it. text_eq it o) allowed ≡ true) req.origins
unfolding verify_origin
verify_origin-All allowed req checked h =
    elim (Option-cases (find (λ value. not (any (λ it. text_eq it value) allowed)) req.origins)) [
      | inl e ↦
          All-map (λ o k. ground (arith, k)) req.origins
            (find-eq-none (λ value. not (any (λ it. text_eq it value) allowed)) req.origins e)
      | inr (bad, e) ↦
          let refusal : verify_origin allowed req ≡ err (bad_origin bad) =
            rw (verify_origin, e) refl in
          absurd (cc)
    ]

-- If a request is authenticated, then every origin that it names is allowed; the user is the one of the
-- session's cookie or, where that names none, the owner of a stored token that is not revoked and has
-- the digest of the `Authorization` header, a text with the prefix of API tokens; and the user's
-- account is not locked.
pub authenticate-IsGranted :
    (digest : Text → List ℕ) (read_only : Bool) (now : ℕ) (allowed : List Text) (users : List User)
    (req : Request) (tokens : ApiTokens) (a : AuthenticatedUser) (tokens' : ApiTokens)
    → authenticate digest read_only now allowed users req tokens ≡ ok (a, tokens')
    → All (λ o. any (λ it. text_eq it o) allowed ≡ true) req.origins
      × IsGranted digest users req tokens a
      × (still_locked digest read_only now a.user ≡ false)
unfolding authenticate
authenticate-IsGranted digest read_only now allowed users req tokens a tokens' h =
    let (checked, e, k) = bind-eq-ok (verify_origin allowed req) _ h in
    let (found, f, k') = bind-eq-ok (authenticate_user digest read_only now users req tokens) _ k in
    let (unlocked, same) = not_locked (still_locked digest read_only now found.0.user) _ k' in
    let is_a : found.0 ≡ a = ap (λ (p : AuthenticatedUser × ApiTokens). p.0) same in
    (
      verify_origin-All allowed req checked e,
      subst (IsGranted digest users req tokens) is_a
          (found_user digest read_only now users req tokens found.0 found.1 f),
      subst (λ (b : AuthenticatedUser). still_locked digest read_only now b.user ≡ false) is_a
          unlocked,
    )
  where
    not_locked :
        (b : Bool) (e : Users.Error) {p q : AuthenticatedUser × ApiTokens}
        → (if b then err e else ok p) ≡ ok q
        → (b ≡ false) × (p ≡ q)
    not_locked true e h = absurd (cc)
    not_locked false e h = (refl, ground arith)
