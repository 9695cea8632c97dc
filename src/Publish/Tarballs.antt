-- ===== src/Publish/Tarballs.antt =====
-- src/uploaders.rs, and `Maximums` of src/util.rs: where a version's files are stored, and which
-- tarballs are stored.
use cargo_website.Base.{
  ℕ, suc, ◌-◌, ◌^◌, ◌%◌, max, Bool, true, false, not, List, [], ◌∷◌, ◌++◌, Option, none, some,
  Result, ok, err, ◌>>=◌, if◌then◌else◌,
}
use cargo_website.Base.Int.{ℤ, pos, negsuc}
use cargo_website.Base.Text.{Text, codes}
use cargo_website.Base.Paths.{components, path_starts_with}
use cargo_website.Io.{Reader, LimitErrorReader, read_to_end}
use cargo_website.Publish.Tables.{
  Crate, Error, unreadable, out_of_fuel, malformed_tarball, invalid_tarball, failed_upload,
  unreadable_archive, unreadable_path,
}

pub record Maximums : Type 0 where
  pub max_upload_size : ℕ
  pub max_unpack_size : ℕ

-- `m as u64`, which wraps a negative number around.
abbrev pub as_u64 : ℤ → ℕ
as_u64 (pos n) = n % 2 ^ 64
as_u64 (negsuc n) = 2 ^ 64 - 1 - n % 2 ^ 64

unfoldable pub new : Option ℤ → ℕ → ℕ → Maximums
new krate_max_upload app_max_upload app_max_unpack =
    let max_upload_size = upload_size krate_max_upload in
    record {
      max_upload_size = max_upload_size;
      max_unpack_size = max app_max_unpack max_upload_size;
    }
  where
    upload_size : Option ℤ → ℕ
    upload_size none = app_max_upload
    upload_size (some m) = as_u64 m

-- The host of a bucket is the s3 library's to say.
pub data Uploader : Type 0 where
  s3 : (host : Text) (cdn : Option Text) → Uploader
  local_ : Uploader

unfoldable pub crate_path : Text → Text → Text
crate_path name version =
    codes "crates/" ++ name ++ codes "/" ++ name ++ codes "-" ++ version ++ codes ".crate"

unfoldable pub readme_path : Text → Text → Text
readme_path name version =
    codes "readmes/" ++ name ++ codes "/" ++ name ++ codes "-" ++ version ++ codes ".html"

-- The address of a file by its path.
abbrev pub location : Uploader → Text → Text
location (s3 host none) path = codes "https://" ++ host ++ codes "/" ++ path
location (s3 host (some cdn)) path = codes "https://" ++ cdn ++ codes "/" ++ path
location local_ path = codes "/" ++ path

unfoldable pub crate_location : Uploader → Text → Text → Text
crate_location self crate_name version = location self (crate_path crate_name version)

unfoldable pub readme_location : Uploader → Text → Text → Text
readme_location self crate_name version = location self (readme_path crate_name version)

-- What the tar library finds in an archive: an entry that it cannot read, or one with its path, which
-- can fail to be a path, and its type.
pub data EntryType : Type 0 where
  hard_link symlink other : EntryType

pub data Entry : Type 0 where
  malformed : Entry
  entry : (path : Option Text) (entry_type : EntryType) → Entry

-- The libraries for gzip, tar and SHA-256, and whether the storage takes a file.
pub record Libraries : Type 0 where
  pub gz_decode : List ℕ → Reader
  pub entries : LimitErrorReader → Option (List Entry)
  pub sha256 : List ℕ → List ℕ
  pub put : Text → List ℕ → Bool

abbrev pub is_link : EntryType → Bool
is_link hard_link = true
is_link symlink = true
is_link other = false

unfoldable pub check_entry : Text → Entry → Result Error (Unit {0})
check_entry prefix malformed = err malformed_tarball
check_entry prefix (entry none t) = err unreadable_path
check_entry prefix (entry (some path) t) =
    if not (path_starts_with (components path) (components prefix))
    then err invalid_tarball
    else if is_link t
    then err invalid_tarball
    else ok tt

-- The loop over the entries.
unfoldable pub check_entries : Text → List Entry → Result Error (Unit {0})
check_entries prefix [] = ok tt
check_entries prefix (e ∷ es) =
    let others = check_entries prefix es in do checked ← check_entry prefix e; others

unfoldable pub prefix_of : Text → Text → Text
prefix_of name vers = name ++ codes "-" ++ vers

-- The files that are stored, by their paths, the last one first.
abbrev pub Files : Type 0
Files = List (Text × List ℕ)

module _ (lib : Libraries) where
  unfoldable pub verify_tarball : Crate → Text → List ℕ → ℕ → Result Error (Unit {0})
  verify_tarball krate vers tarball max_unpack =
      let decoder : LimitErrorReader = record {
        inner = lib.gz_decode tarball;
        limit = max_unpack;
      } in
      elim (lib.entries decoder) [
        | none ↦ err unreadable_archive
        | some es ↦ check_entries (prefix_of krate.name vers) es
      ]

  unfoldable pub upload : Text → List ℕ → Files → Result Error Files
  upload path content files =
      if lib.put path content then ok ((path, content) ∷ files) else err failed_upload

  -- The whole body up to the limit, with a round of the loop for each of its bytes and for the end.
  unfoldable pub read_body : ℕ → Reader → Result Error (List ℕ)
  read_body limit body =
      elim (read_to_end (suc limit) 32 (record { inner = body; limit = limit })) [
        | none ↦ err out_of_fuel
        | some (ok bytes) ↦ ok bytes
        | some (err e) ↦ err (unreadable e)
      ]

  unfoldable pub upload_crate :
      Reader → Crate → Maximums → Text → Files → Result Error (List ℕ × Files)
  upload_crate req_body krate maximums vers files = do
    body ← read_body maximums.max_upload_size req_body
    verified ← verify_tarball krate vers body maximums.max_unpack_size
    files' ← upload (crate_path krate.name vers) body files
    ok (lib.sha256 body, files')

  unfoldable pub upload_readme : (Text → List ℕ) → Text → Text → Text → Files → Result Error Files
  upload_readme into_bytes crate_name vers readme files =
      upload (readme_path crate_name vers) (into_bytes readme) files
