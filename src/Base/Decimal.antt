-- ===== src/Base/Decimal.antt =====
-- Rust's `u32: FromStr` and `u32: ToString`.
use mathlib.Core.List.{concat-ne-nil}
use cargo_website.Base.{
  ℕ, zero, suc, ◌+◌, ◌-◌, ◌*◌, ◌/◌, ◌%◌, ◌<◌, ◌≡◌, ◌≢◌, ◌∙◌, true, false, [], ◌∷◌, ◌++◌, Option,
  none, some, refl, arith, subst, ltb, leb, Bool, ltb→lt, ==_iff, ◌==◌, if◌then◌else◌, Bool-cases,
  Option-cases, inl, inr,
}
use cargo_website.Base.Int.{ℤ, pos, ◌-ℤ◌}
use cargo_website.Base.Text.{Text, is_digit}
use cargo_website.Base.Words.{u32_mod}

-- One more digit, unless it is none or the number overflows.
abbrev push_digit : ℕ → ℕ → Option ℕ
push_digit acc c =
    if is_digit c
    then (if ltb (acc * 10 + (c - 48)) u32_mod then some (acc * 10 + (c - 48)) else none)
    else none

infixl 5 ◌>>=◌
abbrev ◌>>=◌ : Option ℕ → (ℕ → Option ℕ) → Option ℕ
none >>= f = none
some a >>= f = f a

unfoldable pub parse_digits : ℕ → Text → Option ℕ
parse_digits acc [] = some acc
parse_digits acc (c ∷ s) = push_digit acc c >>= λ acc'. parse_digits acc' s

abbrev digits_after_plus : Text → Option ℕ
digits_after_plus [] = none
digits_after_plus (c ∷ s) = parse_digits 0 (c ∷ s)

unfoldable pub parse_u32 : Text → Option ℕ
unfolding parse_digits is_digit
parse_u32 [] = none
parse_u32 (c ∷ s) = if c == b'+' then digits_after_plus s else parse_digits 0 (c ∷ s)

-- `i32: FromStr`.
abbrev signed : Bool → ℕ → Option ℤ
signed true n = if leb n 2_147_483_648 then some (pos 0 -ℤ pos n) else none
signed false n = if ltb n 2_147_483_648 then some (pos n) else none

abbrev with_sign : Bool → Option ℕ → Option ℤ
with_sign negative none = none
with_sign negative (some n) = signed negative n

unfoldable pub parse_i32 : Text → Option ℤ
unfolding parse_digits parse_u32 ◌-ℤ◌
parse_i32 [] = none
parse_i32 (c ∷ s) =
    if c == b'-' then with_sign true (digits_after_plus s) else with_sign false (parse_u32 (c ∷ s))

unfoldable pub to_digits : ℕ → ℕ → Text
to_digits zero n = []
to_digits (suc f) n = elim (ltb n 10) [
  | true ↦ (48 + n) ∷ []
  | false ↦ to_digits f (n / 10) ++ (48 + n % 10) ∷ []
]

unfoldable pub to_string : ℕ → Text
unfolding to_digits
to_string n = to_digits (suc n) n

parse_digits-append :
    (acc : ℕ) (s : Text) (c : ℕ)
    → parse_digits acc (s ++ c ∷ []) ≡ (parse_digits acc s >>= λ v. push_digit v c)
unfolding parse_digits
parse_digits-append acc [] c = ground arith
parse_digits-append acc (d ∷ s) c = elim (Option-cases (push_digit acc d)) [
  | inl e ↦ rw e
  | inr (v, e) ↦ rw e (parse_digits-append v s c)
]

push_digit_lem :
    (v d : ℕ) → d < 10 → v * 10 + d < u32_mod → push_digit v (48 + d) ≡ some (v * 10 + d)
unfolding is_digit
push_digit_lem v d h k = ground arith

one_digit : (n : ℕ) → n < 10 → parse_digits 0 ((48 + n) ∷ []) ≡ some n
unfolding parse_digits is_digit
one_digit n h = ground arith

div_mod_ten : (n : ℕ) → n / 10 * 10 + n % 10 ≡ n
div_mod_ten n = omega arith

parse_digits-to_digits : (f n : ℕ) → n < f → n < u32_mod → parse_digits 0 (to_digits f n) ≡ some n
unfolding to_digits
parse_digits-to_digits zero n h k = elim h [ ]
parse_digits-to_digits (suc f) n h k = elim (Bool-cases (ltb n 10)) [
  | inl e ↦ rw (e, to_digits) (one_digit n (ltb→lt _ _ e))
  | inr e ↦
      rw (e, to_digits)
        (parse_digits-append 0 (to_digits f (n / 10)) (48 + n % 10)
          ∙ rw (parse_digits-to_digits f (n / 10) (ground arith) (omega arith))
              (push_digit_lem (n / 10) (n % 10) (omega arith) (omega arith) ∙ rw (div_mod_ten n)))
]

to_digits-ne-nil : (f n : ℕ) → to_digits (suc f) n ≢ []
unfolding to_digits
to_digits-ne-nil f n = elim (Bool-cases (ltb n 10)) [
  | inl e ↦ rw (e, to_digits) (λ h. cc)
  | inr e ↦ rw (e, to_digits) (concat-ne-nil (48 + n % 10) (to_digits f (n / 10)))
]

plus_first : (s : Text) (n : ℕ) → parse_digits 0 (b'+' ∷ s) ≢ some n
unfolding parse_digits is_digit
plus_first s n e = cc

parse_u32_of_digits : (s : Text) (n : ℕ) → s ≢ [] → parse_digits 0 s ≡ some n → parse_u32 s ≡ some n
unfolding parse_u32
parse_u32_of_digits [] n h e = absurd (h refl)
parse_u32_of_digits (c ∷ s) n h e = elim (Bool-cases (c == b'+')) [
  | inl plus ↦
      absurd
        (plus_first s n (subst (λ x. parse_digits 0 (x ∷ s) ≡ some n) ((==_iff c b'+').0 plus) e))
  | inr other ↦ rw other e
]

-- A printed number is read back.
pub parse_u32-to_string : (n : ℕ) → n < u32_mod → parse_u32 (to_string n) ≡ some n
unfolding to_string
parse_u32-to_string n h =
    parse_u32_of_digits _ n (to_digits-ne-nil n n)
      (parse_digits-to_digits (suc n) n (omega arith) h)
