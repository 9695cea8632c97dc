-- ===== src/Publish/Crates.antt =====
-- `NewCrate` of src/models/krate.rs: creating a crate or updating its metadata.
use cargo_website.Base.{
  ℕ, suc, Bool, true, false, not, ◌&&◌, [], ◌∷◌, ◌++◌, map, Option, none, some, Result, ok, err,
  ◌>>=◌, ◌==◌, if◌then◌else◌, any, find,
}
use cargo_website.Base.Int.{ℤ}
use cargo_website.Base.Text.{Text, codes, text_eq, starts_with}
use cargo_website.Owners.Tables.{CrateOwner, user}
use cargo_website.RateLimit.{PublishRateLimit, check_rate_limit}
use cargo_website.Publish.Tables.{
  Crate, Database, Error, not_http, invalid_url, reserved_name, missing_row, rate_limited, map_err,
}

pub record NewCrate : Type 0 where
  pub name : Text
  pub description : Option Text
  pub homepage : Option Text
  pub documentation : Option Text
  pub readme : Option Text
  pub repository : Option Text
  pub max_upload_size : Option ℤ

-- `replace(lower(name), '-', '_')`, the body of the SQL function.
unfoldable pub canon_crate_name : (Text → Text) → Text → Text
canon_crate_name lower name = map (λ c. if c == b'-' then b'_' else c) (lower name)

abbrev pub same_name : (Text → Text) → Text → Text → Bool
same_name lower a b = text_eq (canon_crate_name lower a) (canon_crate_name lower b)

unfoldable pub validate_url : (Text → Bool) → Option Text → Text → Result Error Bool
validate_url parses none field = ok true
validate_url parses (some url) field =
    if not (starts_with url (codes "http://")) && not (starts_with url (codes "https://"))
    then err (not_http field url)
    else if not (parses url)
    then err (invalid_url field url)
    else ok true

unfoldable pub validate : (Text → Bool) → NewCrate → Result Error Bool
validate parses self = do
  homepage ← validate_url parses self.homepage (codes "homepage")
  documentation ← validate_url parses self.documentation (codes "documentation")
  validate_url parses self.repository (codes "repository")

-- The columns that the change set sets: neither the name nor the maximal size of an upload.
unfoldable pub update : NewCrate → Crate → Crate
update self krate = record krate {
  description = self.description;
  homepage = self.homepage;
  documentation = self.documentation;
  readme = self.readme;
  repository = self.repository;
}

abbrev pub new_row : NewCrate → ℕ → Crate
new_row self id = record {
  id = id;
  name = self.name;
  description = self.description;
  homepage = self.homepage;
  documentation = self.documentation;
  readme = self.readme;
  repository = self.repository;
  max_upload_size = self.max_upload_size;
}

abbrev pub owner_row : ℕ → ℕ → CrateOwner
owner_row krate user_id = record {
  crate_id = krate;
  owner_id = user_id;
  created_by = user_id;
  owner_kind = user;
  deleted = false;
}

-- A token of the uploader's bucket is taken.
abbrev pub charge : PublishRateLimit → ℕ → ℤ → Crate → Database → Result Error (Crate × Database)
charge rate_limit uploader now krate db = do
  limits ← map_err rate_limited (check_rate_limit rate_limit uploader now db.limits)
  ok (krate, record db { limits = limits })

module _ (lower : Text → Text) where
  unfoldable pub ensure_name_not_reserved : NewCrate → Database → Result Error Bool
  ensure_name_not_reserved self db =
      if any (λ name. same_name lower name self.name) db.reserved_crate_names
      then err reserved_name
      else ok true

  -- The insertion does nothing where a row has the canonical name.
  unfoldable pub save_new_crate : NewCrate → ℕ → Database → Option Crate × Database
  save_new_crate self user_id db =
      if any (λ c. same_name lower c.name self.name) db.crates then (none, db) else (
        some (new_row self db.next_crate_id),
        record db {
          crates = db.crates ++ new_row self db.next_crate_id ∷ [];
          next_crate_id = suc db.next_crate_id;
          owning = record db.owning {
            crate_owners = db.owning.crate_owners ++ owner_row db.next_crate_id user_id ∷ [];
          };
        },
      )

  unfoldable pub update_existing : NewCrate → Crate → Crate
  update_existing self c = if same_name lower c.name self.name then update self c else c

  -- `get_result`: the row that was updated. There is one, as the insertion found a conflict.
  unfoldable pub update_crate : NewCrate → Database → Result Error (Crate × Database)
  update_crate self db =
      let crates = map (update_existing self) db.crates in
      elim (find (λ c. same_name lower c.name self.name) crates) [
        | none ↦ err missing_row
        | some krate ↦ ok (krate, record db { crates = crates })
      ]

  abbrev pub after_insert :
      NewCrate
      → ℕ
      → Option PublishRateLimit
      → ℤ
      → Option Crate × Database
      → Result Error (Crate × Database)
  after_insert self uploader rate_limit now (none, db) = update_crate self db
  after_insert self uploader none now (some krate, db) = ok (krate, db)
  after_insert self uploader (some limit) now (some krate, db) = charge limit uploader now krate db

  unfoldable pub save_or_update :
      NewCrate → ℕ → Option PublishRateLimit → ℤ → Database → Result Error (Crate × Database)
  save_or_update self uploader rate_limit now db =
      after_insert self uploader rate_limit now (save_new_crate self uploader db)

  unfoldable pub create_or_update :
      (Text → Bool)
      → NewCrate
      → ℕ
      → Option PublishRateLimit
      → ℤ
      → Database
      → Result Error (Crate × Database)
  create_or_update parses self uploader rate_limit now db = do
    valid ← validate parses self
    free ← ensure_name_not_reserved self db
    save_or_update self uploader rate_limit now db
