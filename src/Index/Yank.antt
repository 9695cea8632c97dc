-- ===== src/Index/Yank.antt =====
-- src/controllers/version/yank.rs: who may yank, and what the request leaves for the job.
use cargo_website.Base.{ℕ, Bool, List, Option, Result, ok, err, ◌>>=◌, ok_or, if◌then◌else◌, find}
use cargo_website.Base.Text.{Text}
use cargo_website.Owners.Tables.{User, Env, owners}
use cargo_website.Owners.Teams.{rights}
use cargo_website.Owners
use cargo_website.Auth.Tokens.{ApiTokens}
use cargo_website.Auth.Users.{AuthenticatedUser, authenticate}
use cargo_website.Auth.Users
use cargo_website.Publish.Tables.{Crate, Version, VersionAction, yank, unyank, Database, map_err}
use cargo_website.Publish.Crates.{same_name}
use cargo_website.Publish.Versions.{is_uploaded, insert_version_owner_action}
use cargo_website.Publish.Routes.{is_nothing}

-- The arguments of the job `git::yank`.
pub record YankJob : Type 0 where
  pub krate : Text
  pub version : Version
  pub yanked : Bool

pub data Error : Type 0 where
  unauthorized : Users.Error → Error
  owners_unknown : Owners.Tables.Error → Error
  invalid_semver : Text → Error
  no_such_crate no_such_version must_be_owner : Error

-- `Crate::by_name` and `find_version`, the first rows.
unfoldable pub by_name : (Text → Text) → Text → List Crate → Option Crate
by_name lower name crates = find (λ c. same_name lower c.name name) crates

unfoldable pub find_version : Crate → Text → List Version → Option Version
find_version krate num versions = find (is_uploaded krate.id num) versions

unfoldable pub version_and_crate :
    (Text → Text) → Text → Text → Database → Result Error (Version × Crate)
version_and_crate lower crate_name semver db = do
  krate ← ok_or (by_name lower crate_name db.crates) no_such_crate
  version ← ok_or (find_version krate semver db.versions) no_such_version
  ok (version, krate)

abbrev pub action_of : Bool → VersionAction
action_of yanked = if yanked then yank else unyank

-- The parameters of the route, and what the semver library says of the version.
pub record Params : Type 0 where
  pub crate_id : Text
  pub version : Text
  pub is_semver : Bool

module _ (digest : Text → List ℕ) (read_only : Bool) (now : ℕ) (allowed_origins : List Text)
    (lower : Text → Text) (github : Env) where
  unfoldable pub modify_yank :
      Users.Request
      → Params
      → Bool
      → Database
      → ApiTokens
      → Result Error (YankJob × Database × ApiTokens)
  modify_yank req params yanked db tokens = do
    found ←
        map_err unauthorized
          (authenticate digest read_only now allowed_origins db.owning.users req tokens)
    semver ← (if params.is_semver then ok params.version else err (invalid_semver params.version))
    vk ← version_and_crate lower params.crate_id semver db
    r ← map_err owners_unknown (rights github found.0.user (owners vk.1.id db.owning))
    if is_nothing r
        then err must_be_owner
        else ok (
          record { krate = vk.1.name; version = vk.0; yanked = yanked },
          insert_version_owner_action vk.0.id found.0.user.id found.0.token_id (action_of yanked)
              db,
          found.1,
        )
