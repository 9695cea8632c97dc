-- ===== src/Publish/Routes.antt =====
-- `parse_new_headers` and `publish` of src/controllers/krate/publish.rs.
use cargo_website.Base.{
  ℕ, ◌+◌, ◌-◌, ◌^◌, Bool, true, false, not, ◌&&◌, List, [], ◌∷◌, ◌++◌, Option, none, some, Result,
  ok, err, ◌>>=◌, ok_or, ltb, ◌/◌, ◌%◌, if◌then◌else◌,
}
use cargo_website.Base.Int.{ℤ, pos, negsuc}
use cargo_website.Base.Text.{Text, codes, text_eq}
use cargo_website.Io.{Reader, read_fill, read_le_u32}
use cargo_website.Names.{Unicode}
use cargo_website.Owners.Tables.{User, Env, Rights, nothing, owners}
use cargo_website.Owners.Teams.{rights}
use cargo_website.RateLimit.{PublishRateLimit}
use cargo_website.Auth.Tokens.{ApiTokens}
use cargo_website.Auth.Users.{AuthenticatedUser, authenticate}
use cargo_website.Auth.Users
use cargo_website.Upload.Metadata.{EncodableCrateUpload, Semver, deserialize}
use cargo_website.Publish.Tables.{
  Crate, Version, publish, IndexCrate, IndexDependency, Job, render_and_upload_readme, add_crate,
  Database, Error, unreadable, unauthorized, owners_unknown, too_large, not_utf8,
  invalid_upload_request, missing_content_length, missing_metadata, no_verified_email,
  missing_rights, previously_named, map_err,
}
use cargo_website.Publish.Crates.{NewCrate, create_or_update}
use cargo_website.Publish.Versions.{save, insert_version_owner_action, verified_email}
use cargo_website.Publish.Versions
use cargo_website.Publish.Dependencies.{add_dependencies}
use cargo_website.Publish.Badges
use cargo_website.Publish.Linked.{update_keywords, update_categories}
use cargo_website.Publish.Tarballs.{Libraries, Maximums, Files, upload_crate}
use cargo_website.Publish.Tarballs

pub record Config : Type 0 where
  pub max_upload_size : ℕ
  pub max_unpack_size : ℕ
  pub publish_rate_limit : PublishRateLimit
  pub allowed_origins : List Text
  pub read_only : Bool

-- What publishing takes from elsewhere: the libraries, the database's and Rust's case conversions,
-- GitHub, the digest of tokens and the clock.
pub record Outside : Type 0 where
  pub libraries : Libraries
  pub semver : Semver
  pub unicode : Unicode
  pub github : Env
  pub lower : Text → Text
  pub to_lowercase : Text → Text
  pub from_utf8 : List ℕ → Option Text
  pub from_json : Text → Option EncodableCrateUpload
  pub parse_url : Text → Bool
  pub valid_license_expr : Text → Bool
  pub is_star : Text → Bool
  pub digest : Text → List ℕ
  pub now : ℕ

pub record Request : Type 0 where
  pub headers : Users.Request
  pub content_length : Option ℕ
  pub body : Reader

pub record State : Type 0 where
  pub db : Database
  pub tokens : ApiTokens
  pub files : Files

pub record PublishWarnings : Type 0 where
  pub invalid_categories : List Text
  pub invalid_badges : List Text

pub record GoodCrate : Type 0 where
  pub krate : Crate
  pub warnings : PublishWarnings

abbrev pub empty : Option Text → Bool
empty none = true
empty (some []) = true
empty (some (_ ∷ _)) = false

unfoldable pub missing : EncodableCrateUpload → List Text
missing new =
    (if empty new.description then codes "description" ∷ [] else [])
    ++ (if empty new.license && empty new.license_file then codes "license" ∷ [] else [])

abbrev pub is_nothing : Rights → Bool
is_nothing nothing = true
is_nothing _ = false

-- `file_length as i32`.
unfoldable pub as_i32 : ℕ → ℤ
as_i32 n = if ltb n (2 ^ 31) then pos n else negsuc (2 ^ 32 - n - 1)

-- The hexadecimal digits of bytes.
abbrev pub hex_digit : ℕ → ℕ
hex_digit d = if ltb d 10 then b'0' + d else b'a' + (d - 10)

unfoldable pub encode_hex : List ℕ → Text
encode_hex [] = []
encode_hex (b ∷ bs) = hex_digit (b / 16) ∷ hex_digit (b % 16) ∷ encode_hex bs

abbrev pub new_crate_of : EncodableCrateUpload → NewCrate
new_crate_of new = record {
  name = new.name;
  description = new.description;
  homepage = new.homepage;
  documentation = new.documentation;
  readme = new.readme;
  repository = new.repository;
  max_upload_size = none;
}

-- The job that renders the readme, where there is one.
abbrev pub readme_job : EncodableCrateUpload → ℕ → List Job
readme_job new version_id = elim new.readme [
  | none ↦ []
  | some readme ↦
      render_and_upload_readme version_id readme (readme_path new.readme_file) new.repository ∷ []
]
  where
    readme_path : Option Text → Text
    readme_path none = codes "README.md"
    readme_path (some path) = path

abbrev pub enqueue : List Job → Database → Database
enqueue jobs db = record db { background_jobs = db.background_jobs ++ jobs }

module _ (config : Config) (env : Outside) where
  unfoldable pub parse_new_headers : Reader → Result Error (EncodableCrateUpload × Reader)
  parse_new_headers body = do
    length ← map_err unreadable (read_le_u32 body)
    json ←
        (if ltb config.max_upload_size length.0
          then err (too_large config.max_upload_size)
          else map_err unreadable (read_fill length.0 length.1))
    text ← ok_or (env.from_utf8 json.0) not_utf8
    raw ← ok_or (env.from_json text) invalid_upload_request
    new ← map_err (λ _. invalid_upload_request) (deserialize env.unicode env.semver raw)
    elim (missing new) [ [] ↦ ok (new, json.1) | m ∷ ms ↦ err (missing_metadata (m ∷ ms)) ]

  -- The crate of the upload, which the user may publish and whose name is exactly the upload's.
  unfoldable pub own_crate :
      EncodableCrateUpload → User → Database → Result Error (Crate × Database)
  own_crate new user db = do
    saved ←
        create_or_update env.lower env.parse_url (new_crate_of new) user.id
          (some config.publish_rate_limit) (pos env.now) db
    r ← map_err owners_unknown (rights env.github user (owners saved.0.id saved.1.owning))
    if is_nothing r
        then err missing_rights
        else if not (text_eq saved.0.name new.name)
        then err (previously_named saved.0.name)
        else ok saved

  -- The length of the tarball that stands in front of it, and the sizes allowed.
  unfoldable pub read_length : Request → Reader → Crate → Result Error ((ℕ × Reader) × Maximums)
  read_length req body krate = do
    file_length ← map_err unreadable (read_le_u32 body)
    content_length ← ok_or req.content_length missing_content_length
    let maximums =
          Tarballs.new krate.max_upload_size config.max_upload_size config.max_unpack_size in
        if ltb maximums.max_upload_size content_length
        then err (too_large maximums.max_upload_size)
        else ok (file_length, maximums)

  unfoldable pub new_version :
      EncodableCrateUpload
      → AuthenticatedUser
      → Text
      → Crate
      → ℕ
      → Database
      → Result Error (Version × Database)
  new_version new ids email krate file_length db = do
    unsaved ←
        Versions.new env.valid_license_expr krate.id new.vers new.features new.license
          new.license_file (as_i32 file_length) ids.user.id
    saved ← save unsaved email db
    ok (saved.0, insert_version_owner_action saved.0.id ids.user.id ids.token_id publish saved.1)

  abbrev pub index_crate : EncodableCrateUpload → List IndexDependency → List ℕ → IndexCrate
  index_crate new git_deps cksum = record {
    name = new.name;
    vers = new.vers;
    deps = git_deps;
    cksum = encode_hex cksum;
    features = new.features;
    yanked = some false;
    links = new.links;
  }

  -- Keywords, categories and badges, with the warnings.
  unfoldable pub update_metadata : EncodableCrateUpload → ℕ → Database → PublishWarnings × Database
  update_metadata new krate db =
      let with_keywords = update_keywords env.to_lowercase krate new.keywords db in
      let (invalid_categories, with_categories) =
        update_categories krate new.categories with_keywords in
      let (invalid_badges, with_badges) = Badges.update_crate krate new.badges with_categories in
      (
        record { invalid_categories = invalid_categories; invalid_badges = invalid_badges },
        with_badges,
      )

  -- The transaction, with the rest of the body.
  unfoldable pub transaction :
      EncodableCrateUpload
      → AuthenticatedUser
      → Text
      → Request
      → Reader
      → Database
      → Files
      → Result Error (GoodCrate × Database × Files)
  transaction new ids email req body db files = do
    krate ← own_crate new ids.user db
    sizes ← read_length req body krate.0
    version ← new_version new ids email krate.0 sizes.0.0 krate.1
    linked ← add_dependencies env.is_star new.deps version.0.id version.1
    let (warnings, updated) = update_metadata new krate.0.id linked.1 in
        do
          stored ← upload_crate env.libraries sizes.0.1 krate.0 sizes.1 new.vers files
          ok (
            record { krate = krate.0; warnings = warnings },
            enqueue
                (readme_job new version.0.id ++ add_crate (index_crate new linked.0 stored.0) ∷ [])
                updated,
            stored.1,
          )

  unfoldable pub publish_crate : Request → State → Result Error (GoodCrate × State)
  publish_crate req state = do
    parsed ← parse_new_headers req.body
    found ← map_err unauthorized (
        authenticate env.digest config.read_only env.now config.allowed_origins
          state.db.owning.users req.headers state.tokens)
    email ← ok_or (verified_email found.0.user state.db) no_verified_email
    done ← transaction parsed.0 found.0 email req parsed.1 state.db state.files
    ok (done.0, record { db = done.1; tokens = found.1; files = done.2 })
