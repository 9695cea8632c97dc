-- ===== src/Publish/Tables.antt =====
-- The rows that publishing reads and writes, its errors, and what it takes from outside.
use cargo_website.Base.{ℕ, Bool, List, Option, Result, ok, err}
use cargo_website.Base.Int.{ℤ}
use cargo_website.Base.Text.{Text}
use cargo_website.Io
use cargo_website.Io.{Reader}
use cargo_website.Owners
use cargo_website.RateLimit
use cargo_website.Upload.Metadata.{DependencyKind}
use cargo_website.Auth.Users

pub record Crate : Type 0 where
  pub id : ℕ
  pub name : Text
  pub description : Option Text
  pub homepage : Option Text
  pub documentation : Option Text
  pub readme : Option Text
  pub repository : Option Text
  pub max_upload_size : Option ℤ

pub record Version : Type 0 where
  pub id : ℕ
  pub crate_id : ℕ
  pub num : Text
  pub features : List (Text × List Text)
  pub yanked : Bool
  pub license : Option Text
  pub crate_size : Option ℤ
  pub published_by : Option ℕ

pub data VersionAction : Type 0 where
  publish yank unyank : VersionAction

pub record VersionOwnerAction : Type 0 where
  pub id : ℕ
  pub version_id : ℕ
  pub user_id : ℕ
  pub api_token_id : Option ℕ
  pub action : VersionAction

pub record Dependency : Type 0 where
  pub id : ℕ
  pub version_id : ℕ
  pub crate_id : ℕ
  pub req : Text
  pub optional : Bool
  pub default_features : Bool
  pub features : List Text
  pub target : Option Text
  pub kind : DependencyKind

pub record Keyword : Type 0 where
  pub id : ℕ
  pub keyword : Text

pub record CrateKeyword : Type 0 where
  pub crate_id : ℕ
  pub keyword_id : ℕ

pub record Category : Type 0 where
  pub id : ℕ
  pub slug : Text

pub record CrateCategory : Type 0 where
  pub crate_id : ℕ
  pub category_id : ℕ

pub record BadgeRow : Type 0 where
  pub crate_id : ℕ
  pub badge_type : Text
  pub attributes : List (Text × Text)

pub record Email : Type 0 where
  pub user_id : ℕ
  pub email : Text
  pub verified : Bool

-- The rows of the index: `Crate` and `Dependency` of src/git.rs.
pub record IndexDependency : Type 0 where
  pub name : Text
  pub req : Text
  pub features : List Text
  pub optional : Bool
  pub default_features : Bool
  pub target : Option Text
  pub kind : Option DependencyKind
  pub package_name : Option Text

pub record IndexCrate : Type 0 where
  pub name : Text
  pub vers : Text
  pub deps : List IndexDependency
  pub cksum : Text
  pub features : List (Text × List Text)
  pub yanked : Option Bool
  pub links : Option Text

-- The background jobs that are enqueued.
pub data Job : Type 0 where
  render_and_upload_readme :
      (version_id : ℕ) (text : Text) (readme_path : Text) (base_url : Option Text) → Job
  add_crate : IndexCrate → Job

pub record Database : Type 0 where
  pub crates : List Crate
  pub next_crate_id : ℕ
  pub reserved_crate_names : List Text
  pub owning : Owners.Tables.Tables
  pub limits : RateLimit.Tables
  pub emails : List Email
  pub versions : List Version
  pub next_version_id : ℕ
  pub versions_published_by : List (ℕ × Text)
  pub version_owner_actions : List VersionOwnerAction
  pub next_action_id : ℕ
  pub dependencies : List Dependency
  pub next_dependency_id : ℕ
  pub keywords : List Keyword
  pub next_keyword_id : ℕ
  pub crates_keywords : List CrateKeyword
  pub categories : List Category
  pub crates_categories : List CrateCategory
  pub badges : List BadgeRow
  pub background_jobs : List Job

pub data Error : Type 0 where
  unreadable : Io.Error → Error
  unauthorized : Users.Error → Error
  owners_unknown : Owners.Tables.Error → Error
  rate_limited : RateLimit.Error → Error
  too_large : ℕ → Error
  not_utf8 invalid_upload_request missing_content_length : Error
  missing_metadata : List Text → Error
  no_verified_email missing_rights reserved_name missing_row : Error
  not_http invalid_url : (field url : Text) → Error
  previously_named already_uploaded no_known_crate other_registry invalid_license : Text → Error
  wildcard_dependency : Error
  malformed_tarball invalid_tarball unreadable_archive unreadable_path : Error
  out_of_fuel failed_upload : Error

-- An error of another component, as this one reports it.
abbrev pub map_err {ℓ κ μ} :
    {E : Type ℓ} {F : Type κ} {A : Type μ} → (E → F) → Result E A → Result F A
map_err f (ok a) = ok a
map_err f (err e) = err (f e)
