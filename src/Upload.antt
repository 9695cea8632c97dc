-- ===== src/Upload.antt =====
-- src/views/krate_publish.rs: the checks that the fields of an upload pass as they are read.
--
-- The JSON reader is serde's: a string field has been read as a text, a list as a list of texts. The
-- parsers of versions and requirements are the semver library's, and parameters.
pub mod Keywords
pub mod Metadata
mod Tests
use cargo_website.Base.{
  ℕ, Bool, List, [], ◌∷◌, Option, none, some, Result, ok, err, ◌>>=◌, ltb, not, if◌then◌else◌,
  length,
}
use cargo_website.Base.Text.{Text, byte_len}
use cargo_website.Names.{
  Unicode, valid_name, valid_dependency_name, valid_feature_name, valid_feature, valid_keyword,
}

pub data Expected : Type 0 where
  a_crate_name a_dependency_name a_keyword a_feature_name a_feature a_semver a_version_req :
      Expected
  at_most_5_keywords at_most_5_categories less_than_20_characters : Expected

pub data Error : Type 0 where
  invalid_value : Text → Expected → Error
  invalid_length : ℕ → Expected → Error

-- The shape of the checks: a text is taken as it is, or is not what was expected.
abbrev pub checked : (Text → Bool) → Expected → Text → Result Error Text
checked valid expected s = if not (valid s) then err (invalid_value s expected) else ok s

-- `Vec::deserialize`: the elements one by one, up to the first error.
unfoldable pub each {ℓ} : {A B : Type ℓ} → (A → Result Error B) → List A → Result Error (List B)
each read [] = ok []
each read (x ∷ xs) = let others = each read xs in do y ← read x; ys ← others; ok (y ∷ ys)

module _ (u : Unicode) where
  unfoldable pub crate_name : Text → Result Error Text
  crate_name s = checked (valid_name u) a_crate_name s

  unfoldable pub dependency_name : Text → Result Error Text
  dependency_name s = checked (valid_dependency_name u) a_dependency_name s

  unfoldable pub keyword : Text → Result Error Text
  keyword s = checked (valid_keyword u) a_keyword s

unfoldable pub feature_name : Text → Result Error Text
feature_name s = checked valid_feature_name a_feature_name s

unfoldable pub feature : Text → Result Error Text
feature s = checked valid_feature a_feature s

module _ {ℓ} {Version : Type ℓ} (parse : Text → Option Version) where
  abbrev pub version : Text → Result Error Version
  version s = elim (parse s) [ none ↦ err (invalid_value s a_semver) | some v ↦ ok v ]

  abbrev pub version_req : Text → Result Error Text
  version_req s = elim (parse s) [ none ↦ err (invalid_value s a_version_req) | some _ ↦ ok s ]

-- The loop over the keywords: `len` counts bytes.
unfoldable pub check_lengths : List Text → Result Error (List Text)
check_lengths [] = ok []
check_lengths (val ∷ inner) =
    let others = check_lengths inner in
    if ltb 20 (byte_len val)
    then err (invalid_length (byte_len val) less_than_20_characters)
    else (do rest ← others; ok (val ∷ rest))

unfoldable pub keyword_list : Unicode → List Text → Result Error (List Text)
unfolding each keyword
keyword_list u raw = do
  inner ← each (keyword u) raw
  if ltb 5 (length inner)
      then err (invalid_length (length inner) at_most_5_keywords)
      else check_lengths inner

-- A category is any text.
unfoldable pub category_list : List Text → Result Error (List Text)
category_list inner =
    if ltb 5 (length inner)
    then err (invalid_length (length inner) at_most_5_categories)
    else ok inner
