-- ===== src/Publish/Tests.antt =====
-- A user publishes a new crate. Digests and decoders leave the bytes as they are, and the archive has
-- one file.
use cargo_website.Base.{◌≡◌, ◌≢◌, ◌⊎◌, ◌↔◌, refl, arith, true, false, List, [], ◌∷◌, some, ok, All}
use cargo_website.Base.Int.{pos}
use cargo_website.Base.Distinct.{AreDistinct}
use cargo_website.Base.Text.{
  Text, codes, text_eq, starts_with, split, is_ascii_alphabetic, is_ascii_alphanumeric, is_digit,
}
use cargo_website.Base.Paths.{components, relative, part_components, path_starts_with}
use cargo_website.Io.{
  Reader, read_le_u32, read_fill, read_fill_loop, read, from_le_bytes, read_to_end, limit_read,
  take_read,
}
use cargo_website.Names.{valid_name, valid_ident, valid_feature_prefix, under_max_length}
use cargo_website.Names.Rules.{IsCrateName, valid_name_iff}
use cargo_website.Owners.Tables.{owners, users_owning, teams_owning, is_live}
use cargo_website.Owners.Teams.{rights, rights_loop}
use cargo_website.RateLimit.{take_token, check_rate_limit, burst_of}
use cargo_website.Auth.Tokens.{find_token, find_by_api_token, parse, from_token, matches}
use cargo_website.Auth.Users.{
  AuthenticatedUser, authenticate, authenticate_user, by_token, verify_origin, find_user,
  still_locked,
}
use cargo_website.Upload.{crate_name, keyword_list, category_list, each, check_lengths}
use cargo_website.Upload.Metadata.{EncodableCrateUpload, deserialize}
use cargo_website.Publish.Crates.{
  create_or_update, validate, validate_url, ensure_name_not_reserved, save_new_crate,
  save_or_update, canon_crate_name,
}
use cargo_website.Publish.Created.{same_crate, WasCreated, WasUpdated, create_or_update-outcome}
use cargo_website.Publish.Versions.{
  save, validate_license, check_license, insert_version_owner_action, verified_email,
}
use cargo_website.Publish.Versions
use cargo_website.Publish.Dependencies.{link_all, add_dependencies, insert_rows}
use cargo_website.Publish.Badges
use cargo_website.Publish.Badges.{sort_badges}
use cargo_website.Publish.Linked.{
  update_keywords, update_categories, find_or_create_all, insert_keywords, by_slugs_case_sensitive,
}
use cargo_website.Publish.Tarballs.{
  Libraries, Entry, entry, other, Maximums, verify_tarball, read_body, upload, upload_crate,
  crate_path, prefix_of, check_entries, check_entry,
}
use cargo_website.Publish.Tarballs
use cargo_website.Publish.Routes.{
  new_crate_of, parse_new_headers, missing, own_crate, read_length, new_version, update_metadata,
  transaction, publish_crate, as_i32, encode_hex,
}
use cargo_website.Publish.Added.{same_version}
use cargo_website.Publish.Published.{
  IsPublished, publish_crate-IsPublished, publish_crate-AreDistinct,
}
use cargo_website.Publish.Verified.{IsInside, verify_tarball_iff}
use cargo_website.Publish.Sample.{
  ascii, outside, config, limit, metadata, alice, before, foo, with_crate, libraries, request,
  start, finish, good, tokens,
}

created :
    create_or_update outside.lower outside.parse_url
      (new_crate_of metadata)
      1
      (some limit)
      (pos 7)
      before
    ≡ ok (foo, with_crate)
unfolding create_or_update validate validate_url ensure_name_not_reserved save_or_update
    save_new_crate canon_crate_name text_eq check_rate_limit take_token burst_of
created = refl

create_or_update-outcome_example :
    (false ≡ false)
    × AreDistinct (same_crate outside.lower) with_crate.crates
    × (WasCreated outside.lower (new_crate_of metadata) 1 limit (pos 7) before foo with_crate
        ⊎ WasUpdated outside.lower (new_crate_of metadata) before foo with_crate)
unfolding canon_crate_name text_eq
create_or_update-outcome_example =
    create_or_update-outcome outside.lower outside.parse_url (new_crate_of metadata) 1 limit (pos 7)
      before foo with_crate tt created

published : publish_crate config outside request start ≡ ok (good, finish)
unfolding publish_crate parse_new_headers transaction own_crate read_length new_version
    update_metadata missing as_i32 encode_hex read_le_u32 read_fill read_fill_loop read
    from_le_bytes deserialize each crate_name keyword_list category_list check_lengths valid_name
    valid_ident valid_feature_prefix under_max_length is_ascii_alphabetic is_ascii_alphanumeric
    is_digit authenticate authenticate_user by_token verify_origin find_user still_locked
    find_by_api_token find_token parse from_token matches starts_with verified_email rights
    rights_loop owners users_owning teams_owning is_live create_or_update validate validate_url
    ensure_name_not_reserved save_or_update save_new_crate canon_crate_name text_eq check_rate_limit
    take_token burst_of save Versions.new validate_license check_license split
    insert_version_owner_action add_dependencies link_all insert_rows update_keywords
    find_or_create_all insert_keywords update_categories by_slugs_case_sensitive Badges.update_crate
    sort_badges upload_crate read_body read_to_end limit_read take_read verify_tarball check_entries
    check_entry prefix_of upload crate_path Tarballs.new path_starts_with components relative
    part_components
published = refl

publish_crate-IsPublished_example :
    (new : EncodableCrateUpload) × (rest : Reader) × (ids : AuthenticatedUser) × (email : Text)
    × (parse_new_headers config outside request.body ≡ ok (new, rest))
    × (authenticate outside.digest true 7 [] (alice ∷ []) request.headers tokens ≡ ok (ids, tokens))
    × (verified_email ids.user before ≡ some email)
    × IsPublished config outside new ids.user before [] good finish.db finish.files
publish_crate-IsPublished_example =
    publish_crate-IsPublished config outside request start good finish published

publish_crate-AreDistinct_example : AreDistinct same_version finish.db.versions
publish_crate-AreDistinct_example =
    publish_crate-AreDistinct config outside request start good finish tt published

foo_name : IsCrateName foo.name
unfolding valid_name valid_ident valid_feature_prefix under_max_length is_ascii_alphabetic
    is_ascii_alphanumeric is_digit
foo_name = (valid_name_iff ascii (codes "foo")).0 refl

no_slash : All (λ c. c ≢ b'/') (codes "1.0.0")
no_slash = (
  λ e. omega arith,
  (λ e. omega arith, (λ e. omega arith, (λ e. omega arith, (λ e. omega arith, tt)))),
)

verify_tarball_iff_example :
    (verify_tarball libraries foo (codes "1.0.0") (31 ∷ []) 2000 ≡ ok tt) ↔ (
      (es : List Entry) × (some (entry (some (codes "foo-1.0.0/lib.rs")) other ∷ []) ≡ some es)
      × All (IsInside (prefix_of foo.name (codes "1.0.0"))) es)
verify_tarball_iff_example =
    verify_tarball_iff libraries foo (codes "1.0.0") (31 ∷ []) 2000 foo_name no_slash
