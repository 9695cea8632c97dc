-- ===== src/Dump/Occurs.antt =====
-- How often a name stands in a list: tables of the dump as multisets of names.
use cargo_website.Base.{
  ℕ, ◌+◌, ◌≤◌, ◌≡◌, refl, inl, inr, Bool, true, false, List, [], ◌∷◌, ◌++◌, arith, All, length,
  Bool-cases, ap, leb, tests,
}
use cargo_website.Base.Text.{Text, text_eq, text_eq_iff, text_eq_refl}

abbrev pub one_if : Bool → ℕ
one_if b = elim b [ true ↦ 1 | false ↦ 0 ]

abbrev pub occurs : Text → List Text → ℕ
occurs t [] = 0
occurs t (x ∷ xs) = one_if (text_eq x t) + occurs t xs

-- How often the names of `qs` are named in `deps`.
abbrev pub hits : List Text → List Text → ℕ
hits qs [] = 0
hits qs (d ∷ deps) = occurs d qs + hits qs deps

pub occurs-append : (t : Text) (xs ys : List Text) → occurs t (xs ++ ys) ≡ occurs t xs + occurs t ys
occurs-append t [] ys = omega arith
occurs-append t (x ∷ xs) ys = omega (arith, occurs-append t xs ys)

pub text_eq-sym : (a b : Text) → text_eq a b ≡ text_eq b a
text_eq-sym a b = ground (arith, text_eq_iff a b, text_eq_iff b a)

pub hits-nil : (deps : List Text) → hits [] deps ≡ 0
hits-nil [] = refl
hits-nil (d ∷ deps) = omega (arith, hits-nil deps)

-- A name that is added is hit as often as it is named.
pub hits-add :
    (qs : List Text) (p : Text) (deps : List Text)
    → hits (qs ++ p ∷ []) deps ≡ hits qs deps + occurs p deps
hits-add qs p [] = refl
hits-add qs p (d ∷ deps) =
    let swap = ap one_if (text_eq-sym p d) in
    omega (arith, hits-add qs p deps, occurs-append d qs (p ∷ []), swap)

-- Names that stand once at most hit at most as many places as there are.
pub hits-le : (qs deps : List Text) → ((t : Text) → occurs t qs ≤ 1) → hits qs deps ≤ length deps
hits-le qs [] h = omega arith
hits-le qs (d ∷ deps) h = omega (arith, hits-le qs deps h, h d)

-- If all places are hit then each name stands among `qs`, and the other way round.
pub hits-all :
    (qs deps : List Text)
    → ((t : Text) → occurs t qs ≤ 1)
    → hits qs deps ≡ length deps
    → All (λ d. occurs d qs ≡ 1) deps
hits-all qs [] h e = tt
hits-all qs (d ∷ deps) h e =
    let le = hits-le qs deps h in let le_d = h d in (omega arith, hits-all qs deps h (omega arith))

pub hits-full : (qs deps : List Text) → All (λ d. occurs d qs ≡ 1) deps → hits qs deps ≡ length deps
hits-full qs [] h = refl
hits-full qs (d ∷ deps) h = omega (arith, hits-full qs deps h.1, h.0)

abbrev remove : Text → List Text → List Text
remove t [] = []
remove t (x ∷ xs) = elim (text_eq x t) [ true ↦ xs | false ↦ x ∷ remove t xs ]

occurs-remove :
    (s t : Text) (xs : List Text)
    → 1 ≤ occurs t xs
    → occurs s (remove t xs) + one_if (text_eq t s) ≡ occurs s xs
occurs-remove s t [] h = absurd (omega arith)
occurs-remove s t (x ∷ xs) h = elim (Bool-cases (text_eq x t)) [
  | inl e ↦
      let same : x ≡ t = (text_eq_iff x t).0 e in
      let eq = ap (λ (z : Text). one_if (text_eq z s)) same in rw (remove, e) (omega arith)
  | inr e ↦
      let no_hit = ap one_if e in
      let le : 1 ≤ occurs t xs = omega arith in
      let ih = occurs-remove s t xs le in rw (remove, e) (omega arith)
]

length-remove : (t : Text) (xs : List Text) → 1 ≤ occurs t xs → length (remove t xs) + 1 ≡ length xs
length-remove t [] h = absurd (omega arith)
length-remove t (x ∷ xs) h = elim (Bool-cases (text_eq x t)) [
  | inl e ↦ rw (remove, e) (omega arith)
  | inr e ↦
      let no_hit = ap one_if e in
      let le : 1 ≤ occurs t xs = omega arith in
      let ih = length-remove t xs le in rw (remove, e) (omega arith)
]

-- A list that holds no name more often is not longer.
pub occurs-length :
    (xs ys : List Text) → ((t : Text) → occurs t xs ≤ occurs t ys) → length xs ≤ length ys
occurs-length [] ys h = omega arith
occurs-length (x ∷ xs) ys h =
    let self = ap one_if (text_eq_refl x) in
    let here : 1 ≤ occurs x ys = omega (arith, h x, self) in
    let rest =
      occurs-length xs (remove x ys) (λ t. omega (arith, h t, occurs-remove t x ys here)) in
    omega (arith, length-remove x ys here, rest)

-- If it is as long then it holds each name as often.
pub occurs-same :
    (xs ys : List Text)
    → ((t : Text) → occurs t xs ≤ occurs t ys)
    → length xs ≡ length ys
    → (t : Text) → occurs t xs ≡ occurs t ys
occurs-same xs ys h e t = elim (Bool-cases (leb (occurs t ys) (occurs t xs))) [
  | inl p ↦ omega (tests, h t)
  | inr p ↦
      let less : occurs t xs + 1 ≤ occurs t ys = ground arith in
      let longer = occurs-length (t ∷ xs) ys (λ s. elim (Bool-cases (text_eq t s)) [
        | inl e' ↦
            let same : t ≡ s = (text_eq_iff t s).0 e' in
            let eq = ap (λ (z : Text). occurs z ys) same in
            let eq' = ap (λ (z : Text). occurs z xs) same in let one = ap one_if e' in omega arith
        | inr e' ↦ let none = ap one_if e' in omega (arith, h s)
      ]) in
      absurd (omega arith)
]
