-- ===== src/Names/Rules.antt =====
-- The accepted names by their characters, with no use of the code's tests.
use cargo_website.Base.{
  ℕ, ◌≡◌, ◌<◌, ◌≤◌, ◌⊎◌, ◌↔◌, Bool, true, false, ◌||◌, ◌&&◌, ◌≢◌, [], ◌∷◌, arith, ◌==◌, all, All,
  All-map, all_reflects, all-and, leb, length-take_le, and_left, and_right, and_intro, leb→le,
  le→leb, length,
}
use cargo_website.Base.Text.{Text, is_ascii, is_ascii_alphabetic, is_ascii_alphanumeric}
use cargo_website.Names.{
  Unicode, map_or, first_char, under_max_length, valid_feature_prefix, valid_feature_name,
  valid_name, valid_dependency_name, valid_keyword,
}

abbrev pub Between : ℕ → ℕ → ℕ → Type 0
Between lo hi c = (lo ≤ c) × (c ≤ hi)

abbrev pub IsLetter : ℕ → Type 0
IsLetter c = Between b'a' b'z' c ⊎ Between b'A' b'Z' c

abbrev pub IsAlphanumeric : ℕ → Type 0
IsAlphanumeric c = IsLetter c ⊎ Between b'0' b'9' c

abbrev pub IsNameChar : ℕ → Type 0
IsNameChar c = IsAlphanumeric c ⊎ (c ≡ b'_') ⊎ (c ≡ b'-')

abbrev pub IsFeatureChar : ℕ → Type 0
IsFeatureChar c = IsNameChar c ⊎ (c ≡ b'+')

-- The text is not empty, and its first character has the property.
abbrev pub Starts : (ℕ → Type 0) → Text → Type 0
Starts P [] = ⊥
Starts P (c ∷ _) = P c

abbrev pub IsCrateName : Text → Type 0
IsCrateName s = Starts IsLetter s × All IsNameChar s × (length s ≤ 64)

abbrev pub IsDependencyName : Text → Type 0
IsDependencyName s = Starts (λ c. IsLetter c ⊎ (c ≡ b'_')) s × All IsNameChar s × (length s ≤ 64)

abbrev pub IsFeaturePrefix : Text → Type 0
IsFeaturePrefix s = Starts IsNameChar s × All IsNameChar s

abbrev pub IsFeatureName : Text → Type 0
IsFeatureName s = Starts IsFeatureChar s × All IsFeatureChar s

abbrev pub IsKeyword : Text → Type 0
IsKeyword s = Starts IsAlphanumeric s × All IsNameChar s

pub IsLetter-iff : (c : ℕ) → (is_ascii_alphabetic c ≡ true) ↔ IsLetter c
unfolding is_ascii_alphabetic
IsLetter-iff c = (λ h. ground arith, λ h. ground arith)

pub IsAlphanumeric-iff : (c : ℕ) → (is_ascii_alphanumeric c ≡ true) ↔ IsAlphanumeric c
unfolding is_ascii_alphanumeric
IsAlphanumeric-iff c = (λ h. ground arith, λ h. ground arith)

pub IsNameChar-iff :
    (c : ℕ) → ((is_ascii_alphanumeric c || c == b'_' || c == b'-') ≡ true) ↔ IsNameChar c
unfolding is_ascii_alphanumeric
IsNameChar-iff c = (λ h. ground arith, λ h. ground arith)

pub IsFeatureChar-iff :
    (c : ℕ)
    → ((is_ascii_alphanumeric c || c == b'_' || c == b'-' || c == b'+') ≡ true) ↔ IsFeatureChar c
unfolding is_ascii_alphanumeric
IsFeatureChar-iff c = (λ h. ground arith, λ h. ground arith)

-- A name character is below 128, so that the tables are those of ASCII.
pub name_char_ascii : (c : ℕ) → IsNameChar c → c < 128
name_char_ascii c h = omega arith

pub IsNameChar-ascii : (s : Text) → All IsNameChar s → All (λ c. c ≤ 127) s
IsNameChar-ascii s h = All-map (λ c k. (omega arith)) s h

pub IsFeaturePrefix-iff : (s : Text) → (valid_feature_prefix s ≡ true) ↔ IsFeaturePrefix s
unfolding valid_feature_prefix
IsFeaturePrefix-iff [] = (λ h. cc, λ h. elim h.0 [ ])
IsFeaturePrefix-iff (c ∷ s) =
    let (f, g) = all_reflects _ IsNameChar IsNameChar-iff (c ∷ s) in
    (λ h. ((f h).0, f h), λ h. g h.1)

prefix_not_empty : valid_feature_prefix [] ≢ true
unfolding valid_feature_prefix
prefix_not_empty h = cc

pub IsFeatureName-iff : (s : Text) → (valid_feature_name s ≡ true) ↔ IsFeatureName s
unfolding valid_feature_name
IsFeatureName-iff [] = (λ h. cc, λ h. elim h.0 [ ])
IsFeatureName-iff (c ∷ s) =
    let (f, g) = all_reflects _ IsFeatureChar IsFeatureChar-iff (c ∷ s) in
    (λ h. ((f h).0, f h), λ h. g h.1)

under_max_length_iff : (s : Text) → (under_max_length s ≡ true) ↔ (length s ≤ 64)
unfolding under_max_length
under_max_length_iff s =
    let (f, g) = length-take_le 64 s in (λ h. f (leb→le _ _ h), λ h. le→leb _ _ (g h))

-- The shape that crate names and dependency names share, for any test of the first character that
-- decides `P` on name characters.
ident_iff :
    (first : ℕ → Bool) (P : ℕ → Type 0)
    → ((c : ℕ) → IsNameChar c → (first c ≡ true) ↔ P c)
    → (s : Text)
    → (((valid_feature_prefix s && map_or false first (first_char s)) && under_max_length s) ≡ true)
      ↔ (Starts P s × All IsNameChar s × (length s ≤ 64))
ident_iff first P each [] =
    (λ h. absurd (prefix_not_empty (and_left _ _ (and_left _ _ h))), λ h. elim h.0 [ ])
ident_iff first P each (c ∷ s) = (
  λ h.
      let chars = ((IsFeaturePrefix-iff (c ∷ s)).0 (and_left _ _ (and_left _ _ h))).1 in
      (
        (each c chars.0).0 (and_right _ _ (and_left _ _ h)),
        chars,
        (under_max_length_iff (c ∷ s)).0 (and_right _ _ h),
      ),
  λ h.
      and_intro _ _
        (and_intro _ _ ((IsFeaturePrefix-iff (c ∷ s)).1 (h.1.0, h.1)) ((each c h.1.0).1 h.0))
        ((under_max_length_iff (c ∷ s)).1 h.2),
)

module _ (u : Unicode) where
  -- The first character's test only matters on ASCII, where the tables agree with the ASCII tests.
  alphabetic_iff : (c : ℕ) → IsNameChar c → (u.is_alphabetic c ≡ true) ↔ IsLetter c
  alphabetic_iff c h = rw (u.alphabetic_ascii c (name_char_ascii c h)) (IsLetter-iff c)

  alphabetic_or_underscore_iff :
      (c : ℕ) → IsNameChar c → ((u.is_alphabetic c || c == b'_') ≡ true) ↔ (IsLetter c ⊎ (c ≡ b'_'))
  alphabetic_or_underscore_iff c h =
      let (f, g) = alphabetic_iff c h in (λ k. ground (arith, f), λ k. ground (arith, g))

  -- A crate name is accepted exactly if it has at most 64 characters, all of them ASCII letters,
  -- digits, `-` or `_`, and starts with an ASCII letter, whatever the Unicode tables hold from 128
  -- on.
  pub valid_name_iff : (s : Text) → (valid_name u s ≡ true) ↔ IsCrateName s
  unfolding valid_name
  valid_name_iff s = ident_iff u.is_alphabetic IsLetter alphabetic_iff s

  -- The name that a dependency has in `Cargo.toml` is accepted exactly if it is like a crate name,
  -- but may start with an underscore too.
  pub valid_dependency_name_iff :
      (s : Text) → (valid_dependency_name u s ≡ true) ↔ IsDependencyName s
  unfolding valid_dependency_name
  valid_dependency_name_iff s = ident_iff _ _ alphabetic_or_underscore_iff s

  abbrev keyword_char : ℕ → Bool
  keyword_char c = u.is_alphanumeric c || c == b'_' || c == b'-'

  keyword_char_iff : (c : ℕ) → ((keyword_char c && is_ascii c) ≡ true) ↔ IsNameChar c
  unfolding is_ascii
  keyword_char_iff c = (
    λ h. (IsNameChar-iff c).0 (
        rw (← u.alphanumeric_ascii c (omega (arith, leb→le c 127 (and_right (keyword_char c) _ h))))
          (and_left (keyword_char c) (leb c 127) h)),
    λ h.
        and_intro (keyword_char c) (leb c 127)
          (rw (u.alphanumeric_ascii c (name_char_ascii c h)) ((IsNameChar-iff c).1 h))
          (le→leb c 127 (omega (arith, name_char_ascii c h))),
  )

  keyword_chars_iff :
      (s : Text) → ((all keyword_char s && all is_ascii s) ≡ true) ↔ All IsNameChar s
  keyword_chars_iff s =
      rw (all-and keyword_char is_ascii s) (all_reflects _ IsNameChar keyword_char_iff s)

  IsAlphanumeric-first_iff :
      (c : ℕ) → IsNameChar c → (u.is_alphanumeric c ≡ true) ↔ IsAlphanumeric c
  IsAlphanumeric-first_iff c h =
      rw (u.alphanumeric_ascii c (name_char_ascii c h)) (IsAlphanumeric-iff c)

  -- A keyword is accepted exactly if it is made of ASCII letters, digits, `-` and `_`, and starts
  -- with a letter or a digit.
  pub valid_keyword_iff : (s : Text) → (valid_keyword u s ≡ true) ↔ IsKeyword s
  unfolding valid_keyword
  valid_keyword_iff [] = (λ h. cc, λ h. elim h.0 [ ])
  valid_keyword_iff (c ∷ s) =
      let (f, g) = keyword_chars_iff (c ∷ s) in
      (
        λ h.
            let chars : All IsNameChar (c ∷ s) = f (ground arith) in
            ((IsAlphanumeric-first_iff c chars.0).0 (ground arith), chars),
        λ h. ground (arith, g h.1, (IsAlphanumeric-first_iff c h.1.0).1 h.0),
      )
