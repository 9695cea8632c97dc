-- ===== src/Base/Distinct.antt =====
-- Lists in which no element is the same as another one, by a test.
use cargo_website.Base.{
  ◌≡◌, ◌∙◌, Bool, false, ◌||◌, List, [], ◌∷◌, ◌++◌, map, any, All, arith, All-append,
}

-- No two elements, at different places, are the same.
abbrev pub AreDistinct {ℓ} : {A : Type ℓ} → (A → A → Bool) → List A → Type 0
AreDistinct same [] = Unit
AreDistinct same (x ∷ xs) = All (λ y. same x y ≡ false) xs × AreDistinct same xs

module _ {ℓ} {A : Type ℓ} where
  pub any-false : (p : A → Bool) (xs : List A) → any p xs ≡ false → All (λ x. p x ≡ false) xs
  any-false p [] h = tt
  any-false p (x ∷ xs) h = (ground arith, any-false p xs (ground arith))

  pub any-append : (p : A → Bool) (xs ys : List A) → any p (xs ++ ys) ≡ (any p xs || any p ys)
  any-append p [] ys = ground arith
  any-append p (x ∷ xs) ys = ground (arith, any-append p xs ys)

  pub AreDistinct-append :
      (same : A → A → Bool) (xs : List A) (y : A)
      → AreDistinct same xs
      → All (λ x. same x y ≡ false) xs
      → AreDistinct same (xs ++ y ∷ [])
  AreDistinct-append same [] y h k = (tt, tt)
  AreDistinct-append same (x ∷ xs) y h k = (
    All-append (λ z. same x z ≡ false) xs (y ∷ []) h.0 (k.0, tt),
    AreDistinct-append same xs y h.1 k.1,
  )

  -- A function that the test does not notice.
  pub AreDistinct-map :
      (same : A → A → Bool) (f : A → A)
      → ((x y : A) → same (f x) (f y) ≡ same x y)
      → (xs : List A) → AreDistinct same xs
      → AreDistinct same (map f xs)
  AreDistinct-map same f e [] h = tt
  AreDistinct-map same f e (x ∷ xs) h = (others xs h.0, AreDistinct-map same f e xs h.1)
    where
      others :
          (ys : List A)
          → All (λ y. same x y ≡ false) ys
          → All (λ y. same (f x) y ≡ false) (map f ys)
      others [] k = tt
      others (y ∷ ys) k = (e x y ∙ k.0, others ys k.1)
