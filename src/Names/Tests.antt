-- ===== src/Names/Tests.antt =====
-- Names that are accepted, and names that are not.
use cargo_website.Base.{◌≡◌, ◌↔◌, refl, true, false}
use cargo_website.Base.Text.{codes, is_ascii_alphabetic, is_ascii_alphanumeric, is_digit, split}
use cargo_website.Names.{
  Unicode, valid_name, valid_ident, valid_feature, valid_feature_name, valid_feature_prefix,
}
use cargo_website.Names.Features.{IsFeature, valid_feature_iff}

-- Tables that hold no letters but those of ASCII.
abbrev ascii : Unicode
ascii = record {
  is_alphabetic = is_ascii_alphabetic;
  is_alphanumeric = is_ascii_alphanumeric;
  alphabetic_ascii = λ c h. refl;
  alphanumeric_ascii = λ c h. refl;
}

digit_first : valid_name ascii (codes "1foo") ≡ false
unfolding valid_name valid_ident valid_feature_prefix is_ascii_alphabetic is_ascii_alphanumeric
    is_digit
digit_first = refl

two_slashes : valid_feature (codes "a/b/c") ≡ false
unfolding valid_feature valid_feature_name valid_feature_prefix split is_ascii_alphanumeric
    is_ascii_alphabetic is_digit
two_slashes = refl

valid_feature_iff_example :
    (valid_feature (codes "serde/std+alloc") ≡ true) ↔ IsFeature (codes "serde/std+alloc")
valid_feature_iff_example = valid_feature_iff (codes "serde/std+alloc")
