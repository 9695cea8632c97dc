-- ===== src/Base/Lists.antt =====
-- Lists measured by native numbers, under the library's names, and predicates by recursion.
use Prim.Native.Nat.{ℕ, zero, suc, ◌+◌, ◌≤◌}
use mathlib.Core.Path.{◌≡◌, refl, sym, ap, subst, ◌∙◌}
use mathlib.Core.Bool.{Bool, true, false, ◌&&◌, ◌||◌}
use mathlib.Core.List.{List, [], ◌∷◌, ◌++◌, map}
use mathlib.Core.Option.{Option, none, some}
use mathlib.Core.Logic.{◌⊎◌, ◌↔◌, inl, inr}
use native.Mathlib.Omega.{arith}
use cargo_website.Base.Tests.{Bool-cases}

module _ {ℓ} {A : Type ℓ} where
  abbrev pub length : List A → ℕ
  length [] = 0
  length (x ∷ xs) = suc (length xs)

  abbrev pub get_elem? : List A → ℕ → Option A
  get_elem? [] i = none
  get_elem? (x ∷ xs) zero = some x
  get_elem? (x ∷ xs) (suc i) = get_elem? xs i

  abbrev pub get_or : List A → ℕ → A → A
  get_or [] i d = d
  get_or (x ∷ xs) zero d = x
  get_or (x ∷ xs) (suc i) d = get_or xs i d

  abbrev pub set : List A → ℕ → A → List A
  set [] i v = []
  set (x ∷ xs) zero v = v ∷ xs
  set (x ∷ xs) (suc i) v = x ∷ set xs i v

  abbrev pub take : ℕ → List A → List A
  take zero xs = []
  take (suc n) [] = []
  take (suc n) (x ∷ xs) = x ∷ take n xs

  abbrev pub drop : ℕ → List A → List A
  drop zero xs = xs
  drop (suc n) [] = []
  drop (suc n) (x ∷ xs) = drop n xs

  -- `Iterator::all` and `Iterator::any`.
  abbrev pub all : (A → Bool) → List A → Bool
  all p [] = true
  all p (x ∷ xs) = p x && all p xs

  abbrev pub any : (A → Bool) → List A → Bool
  any p [] = false
  any p (x ∷ xs) = p x || any p xs

  abbrev pub filter : (A → Bool) → List A → List A
  filter p [] = []
  filter p (x ∷ xs) = elim (p x) [ true ↦ x ∷ filter p xs | false ↦ filter p xs ]

  -- The first element with the property, as `Iterator::find` and `first(conn)`.
  abbrev pub find : (A → Bool) → List A → Option A
  find p [] = none
  find p (x ∷ xs) = elim (p x) [ true ↦ some x | false ↦ find p xs ]

  abbrev pub All {κ} : (A → Type κ) → List A → Type κ
  All P [] = Unit
  All P (x ∷ xs) = P x × All P xs

  abbrev pub Any : (A → Type 0) → List A → Type 0
  Any P [] = ⊥
  Any P (x ∷ xs) = P x ⊎ Any P xs

pub and_left : (a b : Bool) → (a && b) ≡ true → a ≡ true
and_left a b h = ground arith

pub and_right : (a b : Bool) → (a && b) ≡ true → b ≡ true
and_right a b h = ground arith

pub and_intro : (a b : Bool) → a ≡ true → b ≡ true → (a && b) ≡ true
and_intro a b h k = ground arith

module _ {ℓ} {A : Type ℓ} where
  pub length-append : (xs ys : List A) → length (xs ++ ys) ≡ length xs + length ys
  length-append [] ys = omega arith
  length-append (x ∷ xs) ys = omega (arith, length-append xs ys)

  pub all-append : (p : A → Bool) (xs ys : List A) → all p (xs ++ ys) ≡ (all p xs && all p ys)
  all-append p [] ys = refl
  all-append p (x ∷ xs) ys = ground (arith, all-append p xs ys)

  pub length-set : (xs : List A) (i : ℕ) (v : A) → length (set xs i v) ≡ length xs
  length-set [] i v = refl
  length-set (x ∷ xs) zero v = refl
  length-set (x ∷ xs) (suc i) v = ap suc (length-set xs i v)

  pub all_iff : (p : A → Bool) (xs : List A) → (all p xs ≡ true) ↔ All (λ x. p x ≡ true) xs
  all_iff p [] = (λ _. tt, λ _. refl)
  all_iff p (x ∷ xs) = ground (arith, all_iff p xs)

  pub any_iff : (p : A → Bool) (xs : List A) → (any p xs ≡ true) ↔ Any (λ x. p x ≡ true) xs
  any_iff p [] = ground arith
  any_iff p (x ∷ xs) = ground (arith, any_iff p xs)

  pub All-append {κ} : (P : A → Type κ) (xs ys : List A) → All P xs → All P ys → All P (xs ++ ys)
  All-append P [] ys h k = k
  All-append P (x ∷ xs) ys h k = (h.0, All-append P xs ys h.1 k)

  pub All-append_left {κ} : (P : A → Type κ) (xs ys : List A) → All P (xs ++ ys) → All P xs
  All-append_left P [] ys h = tt
  All-append_left P (x ∷ xs) ys h = (h.0, All-append_left P xs ys h.1)

  pub All-append_right {κ} : (P : A → Type κ) (xs ys : List A) → All P (xs ++ ys) → All P ys
  All-append_right P [] ys h = h
  All-append_right P (x ∷ xs) ys h = All-append_right P xs ys h.1

  pub All-map {κ μ} :
      {P : A → Type κ} {Q : A → Type μ} (f : (x : A) → P x → Q x) (xs : List A)
      → All P xs
      → All Q xs
  All-map f [] h = tt
  All-map f (x ∷ xs) h = (f x h.0, All-map f xs h.1)

module _ {ℓ} {A : Type ℓ} where
  -- A test on the elements that decides a predicate decides it of the list.
  pub all_reflects {κ} :
      (p : A → Bool) (P : A → Type κ)
      → ((x : A) → (p x ≡ true) ↔ P x)
      → (xs : List A) → (all p xs ≡ true) ↔ All P xs
  all_reflects p P each [] = (λ _. tt, λ _. refl)
  all_reflects p P each (x ∷ xs) = (
    λ h. ((each x).0 (and_left _ _ h), (all_reflects p P each xs).0 (and_right _ _ h)),
    λ h. and_intro _ _ ((each x).1 h.0) ((all_reflects p P each xs).1 h.1),
  )

  pub length-take_le : (n : ℕ) (xs : List A) → (length (take (suc n) xs) ≤ n) ↔ (length xs ≤ n)
  length-take_le n [] = (λ h. h, λ h. h)
  length-take_le zero (x ∷ xs) = (λ h. absurd (omega arith), λ h. absurd (omega arith))
  length-take_le (suc n) (x ∷ xs) =
      let (f, g) = length-take_le n xs in
      (λ h. omega (arith, f (omega arith)), λ h. omega (arith, g (omega arith)))

  pub all-and : (p q : A → Bool) (xs : List A) → (all p xs && all q xs) ≡ all (λ x. p x && q x) xs
  all-and p q [] = refl
  all-and p q (x ∷ xs) = ground (arith, all-and p q xs)

module _ {ℓ} {A : Type ℓ} where
  -- What is found passes the test, and has what all elements have.
  pub find-eq-some : (p : A → Bool) (xs : List A) (x : A) → find p xs ≡ some x → p x ≡ true
  find-eq-some p [] x h = cc
  find-eq-some p (y ∷ ys) x h = elim (Bool-cases (p y)) [
    | inl e ↦ let same : find p (y ∷ ys) ≡ some y = rw (find, e) in cc
    | inr e ↦
        let rest : find p (y ∷ ys) ≡ find p ys = rw (find, e) in find-eq-some p ys x (sym rest ∙ h)
  ]

  pub find-All {κ} :
      (p : A → Bool) (P : A → Type κ) (xs : List A) (x : A) → find p xs ≡ some x → All P xs → P x
  find-All p P [] x h k = cc
  find-All p P (y ∷ ys) x h k = elim (Bool-cases (p y)) [
    | inl e ↦
        let same : find p (y ∷ ys) ≡ some y = rw (find, e) in
        let here : y ≡ x = cc in subst P here k.0
    | inr e ↦
        let rest : find p (y ∷ ys) ≡ find p ys = rw (find, e) in
        find-All p P ys x (sym rest ∙ h) k.1
  ]

  pub find-eq-none : (p : A → Bool) (xs : List A) → find p xs ≡ none → All (λ x. p x ≡ false) xs
  find-eq-none p [] h = tt
  find-eq-none p (y ∷ ys) h = elim (Bool-cases (p y)) [
    | inl e ↦ let same : find p (y ∷ ys) ≡ some y = rw (find, e) in cc
    | inr e ↦
        let rest : find p (y ∷ ys) ≡ find p ys = rw (find, e) in
        (e, find-eq-none p ys (sym rest ∙ h))
  ]

-- The element that is found stands in the list.
pub find-Any :
    {A : Type 0} (p : A → Bool) (xs : List A) (x : A) → find p xs ≡ some x → Any (λ y. y ≡ x) xs
find-Any p [] x h = cc
find-Any p (y ∷ ys) x h = elim (Bool-cases (p y)) [
  | inl e ↦ let same : find p (y ∷ ys) ≡ some y = rw (find, e) in inl (cc)
  | inr e ↦
      let rest : find p (y ∷ ys) ≡ find p ys = rw (find, e) in inr (find-Any p ys x (sym rest ∙ h))
]

-- What holds of each element of a list holds of the list.
pub All-intro {κ} :
    {A : Type 0} {P : A → Type κ} (xs : List A) → ((x : A) → Any (λ y. y ≡ x) xs → P x) → All P xs
All-intro [] h = tt
All-intro (x ∷ xs) h = (h x (inl refl), All-intro xs (λ y m. h y (inr m)))

pub All-map_image {κ} :
    {A B : Type 0} (P : B → Type κ) (f : A → B) (xs : List A)
    → All (λ x. P (f x)) xs
    → All P (map f xs)
All-map_image P f [] h = tt
All-map_image P f (x ∷ xs) h = (h.0, All-map_image P f xs h.1)
