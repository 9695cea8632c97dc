-- ===== src/Upload/Tests.antt =====
-- Lists of keywords that are accepted, and lists that are not.
use cargo_website.Base.{◌≡◌, ◌≤◌, ◌↔◌, refl, List, [], ◌∷◌, ok, err, length, All}
use cargo_website.Base.Text.{
  Text, codes, byte_len, utf8_len, is_ascii, is_ascii_alphabetic, is_ascii_alphanumeric, is_digit,
}
use cargo_website.Names.{Unicode, valid_keyword}
use cargo_website.Upload.{keyword_list, each, keyword, check_lengths, invalid_value, a_keyword}
use cargo_website.Upload.Keywords.{IsShortKeyword, keyword_list_iff}

abbrev ascii : Unicode
ascii = record {
  is_alphabetic = is_ascii_alphabetic;
  is_alphanumeric = is_ascii_alphanumeric;
  alphabetic_ascii = λ c h. refl;
  alphanumeric_ascii = λ c h. refl;
}

-- The second keyword has twenty characters.
abbrev two_keywords : List Text
two_keywords = codes "web" ∷ codes "12345678901234567890" ∷ []

twenty : keyword_list ascii two_keywords ≡ ok two_keywords
unfolding keyword_list each keyword check_lengths valid_keyword byte_len utf8_len is_ascii
    is_ascii_alphabetic is_ascii_alphanumeric is_digit
twenty = refl

spaces : keyword_list ascii (codes "a b" ∷ []) ≡ err (invalid_value (codes "a b") a_keyword)
unfolding keyword_list each keyword valid_keyword is_ascii is_ascii_alphabetic is_ascii_alphanumeric
    is_digit
spaces = refl

keyword_list_iff_example :
    (keyword_list ascii two_keywords ≡ ok two_keywords)
    ↔ ((two_keywords ≡ two_keywords) × (length two_keywords ≤ 5) × All IsShortKeyword two_keywords)
keyword_list_iff_example = keyword_list_iff ascii two_keywords two_keywords
