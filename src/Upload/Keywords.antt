-- ===== src/Upload/Keywords.antt =====
-- Which lists of keywords and names an upload may have.
use cargo_website.Base.{
  ◌≡◌, ◌≤◌, ◌↔◌, refl, subst, arith, Bool, true, List, [], ◌∷◌, Result, ok, err, ltb, if◌then◌else◌,
  length, All, All-map, bind-eq-ok, Bool-cases, inl, inr, ltb→lt,
}
use cargo_website.Base.Text.{Text, byte_len, byte_len_ascii}
use cargo_website.Names.{Unicode, valid_keyword}
use cargo_website.Names.Rules.{IsKeyword, valid_keyword_iff, IsNameChar-ascii}
use cargo_website.Upload.{
  Error, Expected, a_keyword, invalid_length, at_most_5_keywords, checked, each, keyword,
  check_lengths, keyword_list,
}

-- Reading a list with a check returns the list itself, if every element passes.
each-checked_iff :
    (valid : Text → Bool) (e : Expected) (raw out : List Text)
    → (each (checked valid e) raw ≡ ok out) ↔ ((out ≡ raw) × All (λ s. valid s ≡ true) raw)
unfolding each
each-checked_iff valid e [] out = (λ h. (ground arith, tt), λ h. ground arith)
each-checked_iff valid e (s ∷ raw) out = (
  λ h.
      let (y, same, g) = bind-eq-ok (checked valid e s) _ h in
      let (ys, those, k) = bind-eq-ok (each (checked valid e) raw) _ g in
      let (eq, rest) = (each-checked_iff valid e raw ys).0 those in ground arith,
  λ h.
      let others : each (checked valid e) raw ≡ ok raw =
        (each-checked_iff valid e raw raw).1 (refl, h.1.1) in
      rw (h.0, h.1.0, others) refl,
)

check_lengths_iff :
    (inner out : List Text)
    → (check_lengths inner ≡ ok out) ↔ ((out ≡ inner) × All (λ s. byte_len s ≤ 20) inner)
unfolding check_lengths
check_lengths_iff [] out = (λ h. (ground arith, tt), λ h. ground arith)
check_lengths_iff (s ∷ inner) out = elim (Bool-cases (ltb 20 (byte_len s))) [
  | inl long ↦ rw long (λ h. cc, λ h. absurd (omega (arith, h.1.0, ltb→lt 20 (byte_len s) long)))
  | inr short ↦ rw short (
    λ h.
        let (ys, those, k) = bind-eq-ok (check_lengths inner) _ h in
        let (eq, rest) = (check_lengths_iff inner ys).0 those in
        (ground arith, (ground arith, rest)),
    λ h.
        let others : check_lengths inner ≡ ok inner =
          (check_lengths_iff inner inner).1 (refl, h.1.1) in
        rw (h.0, others) refl,
  )
]

-- A keyword has one byte for each character.
IsKeyword-bytes :
    (u : Unicode) (s : Text)
    → ((valid_keyword u s ≡ true) × (byte_len s ≤ 20)) ↔ (IsKeyword s × (length s ≤ 20))
IsKeyword-bytes u s =
    let (f, g) = valid_keyword_iff u s in
    let same : IsKeyword s → byte_len s ≡ length s =
      λ k. byte_len_ascii s (IsNameChar-ascii s k.1) in
    (λ h. (f h.0, omega (arith, h.1, same (f h.0))), λ h. (g h.0, omega (arith, h.1, same h.0)))

abbrev pub IsShortKeyword : Text → Type 0
IsShortKeyword s = IsKeyword s × (length s ≤ 20)

abbrev bounded : List Text → Result Error (List Text)
bounded inner =
    if ltb 5 (length inner)
    then err (invalid_length (length inner) at_most_5_keywords)
    else check_lengths inner

bounded_iff :
    (inner out : List Text)
    → (bounded inner ≡ ok out)
      ↔ ((out ≡ inner) × (length inner ≤ 5) × All (λ s. byte_len s ≤ 20) inner)
bounded_iff inner out = elim (Bool-cases (ltb 5 (length inner))) [
  | inl long ↦ rw long (λ h. cc, λ h. absurd (omega (arith, h.1, ltb→lt 5 (length inner) long)))
  | inr short ↦ rw short (
    λ h. let (same, fits) = (check_lengths_iff inner out).0 h in (same, ground arith, fits),
    λ h. (check_lengths_iff inner out).1 (h.0, h.2),
  )
]

short_keywords :
    (u : Unicode) (inner : List Text)
    → All (λ s. valid_keyword u s ≡ true) inner
    → All (λ s. byte_len s ≤ 20) inner
    → All IsShortKeyword inner
short_keywords u [] v b = tt
short_keywords u (s ∷ inner) v b =
    ((IsKeyword-bytes u s).0 (v.0, b.0), short_keywords u inner v.1 b.1)

-- A list of keywords is accepted exactly if it has at most five keywords, each made of ASCII letters,
-- digits, `-` and `_`, starting with a letter or a digit, and of at most 20 characters; and it is then
-- kept as it is.
pub keyword_list_iff :
    (u : Unicode) (raw out : List Text)
    → (keyword_list u raw ≡ ok out) ↔ ((out ≡ raw) × (length raw ≤ 5) × All IsShortKeyword raw)
unfolding keyword_list keyword
keyword_list_iff u raw out = (
  λ h.
      let (inner, read, k) = bind-eq-ok (each (checked (valid_keyword u) a_keyword) raw) _ h in
      let (same, valid) = (each-checked_iff (valid_keyword u) a_keyword raw inner).0 read in
      let (kept, few, fits) = (bounded_iff raw out).0 (subst (λ l. bounded l ≡ ok out) same k) in
      (kept, few, short_keywords u raw valid fits),
  λ h.
      let read : each (checked (valid_keyword u) a_keyword) raw ≡ ok raw =
        (each-checked_iff (valid_keyword u) a_keyword raw raw).1
          (refl, All-map (λ s k. ((IsKeyword-bytes u s).1 k).0) raw h.2) in
      rw (read) (
        (bounded_iff raw out).1 (h.0, h.1, All-map (λ s k. ((IsKeyword-bytes u s).1 k).1) raw h.2)),
)
