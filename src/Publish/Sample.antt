-- ===== src/Publish/Sample.antt =====
-- Data for tests: a database, a user and the metadata of a crate. Digests and decoders leave the bytes
-- as they are, and the archive has one file.
use cargo_website.Base.{refl, true, false, List, [], ◌∷◌, none, some}
use cargo_website.Base.Int.{pos}
use cargo_website.Base.Text.{codes, is_ascii_alphabetic, is_ascii_alphanumeric}
use cargo_website.Io.{chunk}
use cargo_website.Names.{Unicode}
use cargo_website.Owners
use cargo_website.Owners.Tables.{
  User, user, CrateOwner, Env, unknown, owners, users_owning, teams_owning, is_live,
}
use cargo_website.RateLimit
use cargo_website.RateLimit.{PublishRateLimit, take_token, check_rate_limit, burst_of, store}
use cargo_website.RateLimit.Bounds.{bucket}
use cargo_website.Auth.Tokens.{ApiTokens}
use cargo_website.Upload.Metadata.{EncodableCrateUpload}
use cargo_website.Publish.Tables.{Crate, Version, publish, IndexCrate, add_crate, Database}
use cargo_website.Publish.Tarballs.{Libraries, entry, other}
use cargo_website.Publish.Routes.{Config, Outside, Request, State, GoodCrate}

abbrev pub ascii : Unicode
ascii = record {
  is_alphabetic = is_ascii_alphabetic;
  is_alphanumeric = is_ascii_alphanumeric;
  alphabetic_ascii = λ _ _. refl;
  alphanumeric_ascii = λ _ _. refl;
}

abbrev pub github : Env
github = record {
  to_lowercase = λ s. s;
  lower = λ s. s;
  team_by_name = λ _ _ _. none;
  org_by_name = λ _ _. none;
  team_membership = λ _ _ _ _. unknown;
  ownership_invitations_expiration_days = 30;
  now = 7;
  new_token = codes "token";
}

abbrev pub libraries : Libraries
libraries = record {
  gz_decode = λ bytes. chunk bytes ∷ [];
  entries = λ _. some (entry (some (codes "foo-1.0.0/lib.rs")) other ∷ []);
  sha256 = λ bytes. bytes;
  put = λ _ _. true;
}

abbrev pub metadata : EncodableCrateUpload
metadata = record {
  name = codes "foo";
  vers = codes "1.0.0";
  deps = [];
  features = [];
  description = some (codes "A crate");
  homepage = none;
  documentation = none;
  readme = none;
  readme_file = none;
  keywords = [];
  categories = [];
  license = some (codes "MIT");
  license_file = none;
  repository = none;
  badges = none;
  links = none;
}

abbrev pub outside : Outside
outside = record {
  libraries = libraries;
  semver = record { parse_version = λ s. some s; parse_req = λ s. some s };
  unicode = ascii;
  github = github;
  lower = λ s. s;
  to_lowercase = λ s. s;
  from_utf8 = λ bytes. some bytes;
  from_json = λ _. some metadata;
  parse_url = λ _. true;
  valid_license_expr = λ _. true;
  is_star = λ _. false;
  digest = λ s. s;
  now = 7;
}

abbrev pub limit : PublishRateLimit
limit = record { rate = 600_000_000; burst = pos 5 }

abbrev pub config : Config
config = record {
  max_upload_size = 1000;
  max_unpack_size = 2000;
  publish_rate_limit = limit;
  allowed_origins = [];
  read_only = true;
}

abbrev pub alice : User
alice = record {
  id = 1;
  gh_access_token = codes "a";
  gh_login = codes "alice";
  gh_id = pos 11;
  account_lock_reason = none;
  account_lock_until = none;
}

abbrev pub limits : RateLimit.Tables
limits = record { overrides = λ _. none; buckets = λ _. none }

abbrev pub accounts : List CrateOwner → Owners.Tables.Tables
accounts rows = record {
  users = alice ∷ [];
  teams = [];
  next_team_id = 1;
  crate_owners = rows;
  crate_owner_invitations = [];
}

abbrev pub before : Database
before = record {
  crates = [];
  next_crate_id = 1;
  reserved_crate_names = codes "std" ∷ [];
  owning = accounts [];
  limits = limits;
  emails = record { user_id = 1; email = codes "alice@example.com"; verified = true } ∷ [];
  versions = [];
  next_version_id = 1;
  versions_published_by = [];
  version_owner_actions = [];
  next_action_id = 1;
  dependencies = [];
  next_dependency_id = 1;
  keywords = [];
  next_keyword_id = 1;
  crates_keywords = [];
  categories = [];
  crates_categories = [];
  badges = [];
  background_jobs = [];
}

abbrev pub foo : Crate
foo = record {
  id = 1;
  name = codes "foo";
  description = some (codes "A crate");
  homepage = none;
  documentation = none;
  readme = none;
  repository = none;
  max_upload_size = none;
}

abbrev pub owner : CrateOwner
owner = record { crate_id = 1; owner_id = 1; created_by = 1; owner_kind = user; deleted = false }

abbrev pub with_crate : Database
with_crate = record before {
  crates = foo ∷ [];
  next_crate_id = 2;
  owning = accounts (owner ∷ []);
  limits = store limits 1 (bucket 1 5 7);
}

-- The request: the metadata's length and JSON, the tarball's length and bytes.
abbrev pub request : Request
request = record {
  headers = record { origins = []; session_user_id = none; authorization = some (codes "ciox") };
  content_length = some 13;
  body = chunk (2 ∷ 0 ∷ 0 ∷ 0 ∷ codes "{}") ∷ chunk (3 ∷ 0 ∷ 0 ∷ 0 ∷ 31 ∷ 139 ∷ 8 ∷ []) ∷ [];
}

abbrev pub tokens : ApiTokens
tokens = record {
  rows =
      record {
        id = 1;
        user_id = 1;
        token = record { sha256 = codes "ciox" };
        name = codes "laptop";
        created_at = 5;
        last_used_at = none;
        revoked = false;
      }
      ∷ [];
  next_id = 2;
}

abbrev pub start : State
start = record { db = before; tokens = tokens; files = [] }

abbrev pub version_1 : Version
version_1 = record {
  id = 1;
  crate_id = 1;
  num = codes "1.0.0";
  features = [];
  yanked = false;
  license = some (codes "MIT");
  crate_size = some (pos 3);
  published_by = some 1;
}

abbrev pub line : IndexCrate
line = record {
  name = codes "foo";
  vers = codes "1.0.0";
  deps = [];
  cksum = codes "1f8b08";
  features = [];
  yanked = some false;
  links = none;
}

abbrev pub finish : State
finish = record start {
  db = record with_crate {
    versions = version_1 ∷ [];
    next_version_id = 2;
    versions_published_by = (1, codes "alice@example.com") ∷ [];
    version_owner_actions =
        record { id = 1; version_id = 1; user_id = 1; api_token_id = some 1; action = publish }
        ∷ [];
    next_action_id = 2;
    background_jobs = add_crate line ∷ [];
  };
  files = (codes "crates/foo/foo-1.0.0.crate", 31 ∷ 139 ∷ 8 ∷ []) ∷ [];
}

abbrev pub good : GoodCrate
good = record { krate = foo; warnings = record { invalid_categories = []; invalid_badges = [] } }
