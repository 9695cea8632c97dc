-- ===== src/Auth/Life.antt =====
-- A token that has been created is found.
use cargo_website.Base.{
  ℕ, suc, ◌≡◌, inl, inr, refl, ◌∙◌, arith, Bool, true, false, List, [], ◌∷◌, ◌++◌, map, some, ok,
  find, All, All-map, Bool-cases,
}
use cargo_website.Base.Text.{Text, text_eq, text_eq_refl, starts_with-append}
use cargo_website.Auth.Tokens.{
  api, prefix, from_token, parse, generate, generate_secure_alphanumeric_string, insert, matches,
  use_row, find_token, find_by_api_token, ApiToken, ApiTokens, SecureToken, token_length,
}

-- A generated token has the prefix by which it is recognized.
from_token-prefix : (r : Text) → from_token (prefix api ++ r) ≡ some api
unfolding from_token
from_token-prefix r = rw (find, starts_with-append (prefix api) r) refl

find-append {ℓ} :
    {A : Type ℓ} (p : A → Bool) (xs : List A) (y : A)
    → All (λ x. p x ≡ false) xs
    → p y ≡ true
    → find p (xs ++ y ∷ []) ≡ some y
find-append p [] y h e = rw (find, e) refl
find-append p (x ∷ xs) y h e = rw (find, h.0) (find-append p xs y h.1 e)

find-map-append {ℓ} :
    {A : Type ℓ} (p : A → Bool) (f : A → A) (xs : List A) (y : A)
    → All (λ x. p (f x) ≡ false) xs
    → p (f y) ≡ true
    → find p (map f (xs ++ y ∷ [])) ≡ some (f y)
find-map-append p f [] y h e = rw (find, e) refl
find-map-append p f (x ∷ xs) y h e = rw (find, h.0) (find-map-append p f xs y h.1 e)

module _ (digest : Text → List ℕ) where
  use_row-matches :
      (now : ℕ) (token_ : SecureToken) (t : ApiToken)
      → matches digest token_ (use_row digest now token_ t) ≡ matches digest token_ t
  unfolding matches
  use_row-matches now token_ t = elim (Bool-cases (matches digest token_ t)) [
    | inl e ↦ rw e e
    | inr e ↦ rw e e
  ]

  find_token-last :
      (read_only : Bool) (now : ℕ) (token_ : SecureToken) (db : ApiTokens) (t : ApiToken)
      → All (λ r. matches digest token_ r ≡ false) db.rows
      → matches digest token_ t ≡ true
      → (t' : ApiToken) × (db' : ApiTokens) × (find_token digest read_only now token_
            (record db { rows = db.rows ++ t ∷ [] })
          ≡ ok (t', db'))
        × (t'.id ≡ t.id)
        × (t'.user_id ≡ t.user_id)
  unfolding find_token
  find_token-last true now token_ db t h e = (
    t,
    record db { rows = db.rows ++ t ∷ [] },
    rw (find-append (matches digest token_) db.rows t h e) refl,
    refl,
    refl,
  )
  find_token-last false now token_ db t h e =
      let found : find (matches digest token_) (map (use_row digest now token_) (db.rows ++ t ∷ []))
          ≡ some (use_row digest now token_ t) =
        find-map-append (matches digest token_) (use_row digest now token_) db.rows t
          (All-map (λ r k. use_row-matches now token_ r ∙ k) db.rows h)
          (use_row-matches now token_ t ∙ e) in
      (
        use_row digest now token_ t,
        record db { rows = map (use_row digest now token_) (db.rows ++ t ∷ []) },
        rw found refl,
        rw e refl,
        rw e refl,
      )

  parse-generate :
      (sample : ℕ → ℕ)
      → parse digest api (generate digest sample api).plaintext
        ≡ some (generate digest sample api).inner
  unfolding parse generate
  parse-generate sample =
      rw (from_token-prefix (generate_secure_alphanumeric_string sample token_length 0)) refl

  -- Where no other token has its digest, the plaintext of a token that has just been created finds this
  -- token and its user, whatever the random numbers were, at any later time and on a read-only
  -- database too.
  pub insert-find :
      (sample : ℕ → ℕ) (now user_id : ℕ) (name : Text) (db : ApiTokens) (read_only : Bool)
      (later : ℕ)
      → All (λ r. text_eq r.token.sha256 (generate digest sample api).inner.sha256 ≡ false) db.rows
      → (t : ApiToken) × (db' : ApiTokens) × (find_by_api_token digest read_only later
            (insert digest sample now user_id name db).0.plaintext
            (insert digest sample now user_id name db).1
          ≡ ok (t, db'))
        × (t.id ≡ db.next_id)
        × (t.user_id ≡ user_id)
  unfolding insert find_by_api_token matches
  insert-find sample now user_id name db read_only later h =
      let new = (insert digest sample now user_id name db).0.model in
      let token_ = (generate digest sample api).inner in
      rw (parse-generate sample) (
        find_token-last read_only later token_ (record db { next_id = suc db.next_id }) new
          (All-map (λ r k. ground (arith, k)) db.rows h)
          (ground (arith, text_eq_refl token_.sha256)))
