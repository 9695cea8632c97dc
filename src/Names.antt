-- ===== src/Names.antt =====
-- src/models/krate.rs, src/models/keyword.rs: which names of crates, dependencies, features and
-- keywords are accepted.
pub mod Rules
pub mod Features
mod Tests
use cargo_website.Base.{
  ℕ, ◌+◌, ◌≡◌, ◌<◌, Bool, true, false, ◌&&◌, ◌||◌, not, List, [], ◌∷◌, Option, none, some, arith,
  leb, ◌==◌, all, take, length,
}
use cargo_website.Base.Text.{
  Text, split, is_ascii, is_digit, is_ascii_alphabetic, is_ascii_alphanumeric,
}

-- What the code uses of Rust's Unicode tables: `char::is_alphabetic` and `char::is_alphanumeric`.
-- Below 128 they are the ASCII tests; nothing is said of the characters above.
pub record Unicode : Type 0 where
  pub is_alphabetic : ℕ → Bool
  pub is_alphanumeric : ℕ → Bool
  pub alphabetic_ascii : (c : ℕ) → c < 128 → is_alphabetic c ≡ is_ascii_alphabetic c
  pub alphanumeric_ascii : (c : ℕ) → c < 128 → is_alphanumeric c ≡ is_ascii_alphanumeric c

abbrev pub max_name_length : ℕ
max_name_length = 64

abbrev pub is_empty : Text → Bool
is_empty [] = true
is_empty (_ ∷ _) = false

-- `o.map(f).unwrap_or(default)`.
abbrev pub map_or {ℓ} : {A : Type ℓ} → Bool → (A → Bool) → Option A → Bool
map_or default f none = default
map_or default f (some a) = f a

-- `s.chars().next()`.
abbrev pub first_char : Text → Option ℕ
first_char [] = none
first_char (c ∷ _) = some c

unfoldable pub under_max_length : Text → Bool
under_max_length name = leb (length (take (max_name_length + 1) name)) max_name_length

unfoldable pub valid_feature_prefix : Text → Bool
unfolding is_ascii_alphanumeric
valid_feature_prefix name =
    not (is_empty name) && all (λ c. is_ascii_alphanumeric c || c == b'_' || c == b'-') name

unfoldable pub valid_feature_name : Text → Bool
unfolding is_ascii_alphanumeric
valid_feature_name name =
    not (is_empty name)
    && all (λ c. is_ascii_alphanumeric c || c == b'_' || c == b'-' || c == b'+') name

-- `DoubleEndedIterator::next_back`: the parts that are left, and the last one.
abbrev pub next_back {ℓ} : {A : Type ℓ} → List A → List A × Option A
next_back [] = ([], none)
next_back (x ∷ []) = ([], some x)
next_back (x ∷ y ∷ ys) = let (rest, last) = next_back (y ∷ ys) in (x ∷ rest, last)

abbrev is_none : List Text → Bool
is_none [] = true
is_none (_ ∷ _) = false

unfoldable pub valid_feature : Text → Bool
unfolding split
valid_feature name =
    let (parts, name_part) = next_back (split b'/' name) in
    let (others, prefix_part) = next_back parts in
    is_none others
    && map_or false valid_feature_name name_part
    && map_or true valid_feature_prefix prefix_part

module _ (u : Unicode) where
  unfoldable pub valid_ident : Text → Bool
  valid_ident name = valid_feature_prefix name && map_or false u.is_alphabetic (first_char name)

  unfoldable pub valid_name : Text → Bool
  unfolding valid_ident under_max_length
  valid_name name = valid_ident name && under_max_length name

  unfoldable pub valid_dependency_ident : Text → Bool
  valid_dependency_ident name =
      valid_feature_prefix name
      && map_or false (λ n. u.is_alphabetic n || n == b'_') (first_char name)

  unfoldable pub valid_dependency_name : Text → Bool
  unfolding valid_dependency_ident under_max_length
  valid_dependency_name name = valid_dependency_ident name && under_max_length name

  -- `Keyword::valid_name`.
  unfoldable pub valid_keyword : Text → Bool
  unfolding is_ascii
  valid_keyword name =
      not (is_empty name)
      && map_or false u.is_alphanumeric (first_char name)
      && all (λ c. u.is_alphanumeric c || c == b'_' || c == b'-') name
      && all is_ascii name
