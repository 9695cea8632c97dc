-- ===== src/Publish/Versions.antt =====
-- `NewVersion` of src/models/version.rs, `insert_version_owner_action` of src/models/action.rs, and
-- `User::verified_email`.
use cargo_website.Base.{
  ℕ, suc, Bool, true, false, not, ◌&&◌, List, [], ◌∷◌, ◌++◌, Option, none, some, Result, ok, err,
  ◌>>=◌, ◌==◌, if◌then◌else◌, any, find,
}
use cargo_website.Base.Int.{ℤ}
use cargo_website.Base.Text.{Text, codes, text_eq, split}
use cargo_website.Owners.Tables.{User}
use cargo_website.Publish.Tables.{
  Version, VersionAction, VersionOwnerAction, Database, Error, invalid_license, already_uploaded,
}

pub record NewVersion : Type 0 where
  pub crate_id : ℕ
  pub num : Text
  pub features : List (Text × List Text)
  pub license : Option Text
  pub crate_size : Option ℤ
  pub published_by : ℕ

-- The loop over the parts of a license; the check of one is the license-exprs library's.
unfoldable pub check_license : (Text → Bool) → List Text → Result Error Bool
check_license valid [] = ok true
check_license valid (part ∷ parts) =
    let others = check_license valid parts in
    if not (valid part) then err (invalid_license part) else others

-- The two arms, on the license that the version has.
abbrev pub validate_with :
    (Text → Bool) → Option Text → Option Text → NewVersion → Result Error NewVersion
validate_with valid (some license) license_file self = do
  checked ← check_license valid (split b'/' license)
  ok self
validate_with valid none (some _) self = ok (record self { license = some (codes "non-standard") })
validate_with valid none none self = ok self

unfoldable pub validate_license : (Text → Bool) → Option Text → NewVersion → Result Error NewVersion
validate_license valid license_file self = validate_with valid self.license license_file self

unfoldable pub new :
    (Text → Bool)
    → ℕ
    → Text
    → List (Text × List Text)
    → Option Text
    → Option Text
    → ℤ
    → ℕ
    → Result Error NewVersion
new valid crate_id num features license license_file crate_size published_by =
    validate_license valid license_file (record {
      crate_id = crate_id;
      num = num;
      features = features;
      license = license;
      crate_size = some crate_size;
      published_by = published_by;
    })

abbrev pub is_uploaded : ℕ → Text → Version → Bool
is_uploaded crate_id num v = v.crate_id == crate_id && text_eq v.num num

-- The row, with the columns' defaults.
abbrev pub version_row : NewVersion → ℕ → Version
version_row self id = record {
  id = id;
  crate_id = self.crate_id;
  num = self.num;
  features = self.features;
  yanked = false;
  license = self.license;
  crate_size = self.crate_size;
  published_by = some self.published_by;
}

unfoldable pub save : NewVersion → Text → Database → Result Error (Version × Database)
save self published_by_email db =
    if any (is_uploaded self.crate_id self.num) db.versions
    then err (already_uploaded self.num)
    else ok (
      version_row self db.next_version_id,
      record db {
        versions = db.versions ++ version_row self db.next_version_id ∷ [];
        next_version_id = suc db.next_version_id;
        versions_published_by =
            db.versions_published_by ++ (db.next_version_id, published_by_email) ∷ [];
      },
    )

unfoldable pub insert_version_owner_action : ℕ → ℕ → Option ℕ → VersionAction → Database → Database
insert_version_owner_action version_id user_id api_token_id action db =
    let row : VersionOwnerAction = record {
      id = db.next_action_id;
      version_id = version_id;
      user_id = user_id;
      api_token_id = api_token_id;
      action = action;
    } in
    record db {
      version_owner_actions = db.version_owner_actions ++ row ∷ [];
      next_action_id = suc db.next_action_id;
    }

-- Of the emails that belong to the user, a verified one.
unfoldable pub verified_email : User → Database → Option Text
verified_email self db = elim (find (λ e. e.user_id == self.id && e.verified) db.emails) [
  | none ↦ none
  | some e ↦ some e.email
]
