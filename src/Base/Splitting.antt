-- ===== src/Base/Splitting.antt =====
-- Splitting a text in which the separator does not stand.
use cargo_website.Base.{
  ℕ, ◌≡◌, ◌≢◌, refl, arith, List, [], ◌∷◌, ◌++◌, ◌==◌, All, Bool-cases, inl, inr,
}
use cargo_website.Base.Text.{Text, split, prepend}

module _ (sep : ℕ) where
  pub split-whole : (s : Text) → All (λ c. c ≢ sep) s → split sep s ≡ s ∷ []
  unfolding split prepend
  split-whole [] h = refl
  split-whole (c ∷ s) h = elim (Bool-cases (c == sep)) [
    | inl e ↦ absurd (h.0 (ground arith))
    | inr e ↦ rw (e, split-whole s h.1) refl
  ]

  pub split-first :
      (s rest : Text) → All (λ c. c ≢ sep) s → split sep (s ++ sep ∷ rest) ≡ s ∷ split sep rest
  unfolding split prepend
  split-first [] rest h = elim (Bool-cases (sep == sep)) [
    | inl e ↦ rw e refl
    | inr e ↦ absurd (ground arith)
  ]
  split-first (c ∷ s) rest h = elim (Bool-cases (c == sep)) [
    | inl e ↦ absurd (h.0 (ground arith))
    | inr e ↦ rw (e, split-first s rest h.1) refl
  ]

  -- No part holds the separator.
  pub split-All : (s : Text) → All (λ part. All (λ c. c ≢ sep) part) (split sep s)
  unfolding split
  split-All [] = (tt, tt)
  split-All (c ∷ s) = elim (Bool-cases (c == sep)) [
    | inl e ↦ rw e (tt, split-All s)
    | inr e ↦ rw e (prepend-All c (split sep s) (λ f. ground arith) (split-All s))
  ]
    where
      prepend-All :
          (c : ℕ) (parts : List Text)
          → c ≢ sep
          → All (λ part. All (λ c. c ≢ sep) part) parts
          → All (λ part. All (λ c. c ≢ sep) part) (prepend c parts)
      prepend-All c [] h k = ((h, tt), tt)
      prepend-All c (part ∷ parts) h k = ((h, k.0), k.1)
