-- ===== src/Updating.antt =====
-- The job of src/tasks/update_downloads.rs, which adds what was downloaded since its last run to
-- the totals of the versions, of the crates and of the site. The server's part, whether it answers
-- a statement, is a parameter; the view of the recent downloads that it refreshes is not modelled.
mod Steps
mod Tests
pub mod Totals
pub mod Conserved
pub mod Settled
mod Frozen
pub mod Finished
use cargo_website.Base.{
  ℕ, ◌+◌, ◌-◌, ◌%◌, Bool, true, false, ◌&&◌, not, List, [], ◌∷◌, map, Option, none, some, ltb, ◌==◌,
  if◌then◌else◌, find, filter, Result, ok, err, guard, ok_or, ◌>>=◌, ◌>>◌,
}
use cargo_website.Base.Int.{ℤ, pos, negsuc, pos_part, neg_part, ◌+ℤ◌}
use cargo_website.Base.Words.{as_i32, u32_mod}
use cargo_website.Downloads.{fits_i32}

pub data Error : Type 0 where
  query_failed not_found out_of_range : Error

-- What the server is asked in the transaction for a row.
pub data Statement : Type 0 where
  versions crates metadata version_downloads commit : Statement

pub record VersionDownload : Type 0 where
  pub version_id : ℕ
  pub downloads : ℤ
  pub counted : ℤ
  pub date : ℕ
  pub processed : Bool

pub record Version : Type 0 where
  pub id : ℕ
  pub crate_id : ℕ
  pub downloads : ℤ

pub record Crate : Type 0 where
  pub id : ℕ
  pub downloads : ℤ

pub record Database : Type 0 where
  pub versions : List Version
  pub crates : List Crate
  pub total_downloads : ℤ
  pub version_downloads : List VersionDownload

-- Whether the server answers a query, for those of a transaction by the row that it is for.
pub record Conn : Type 0 where
  pub load : Bool
  pub execute : VersionDownload → Statement → Bool
  pub freeze : Bool
  pub refresh : Bool

abbrev pub equal_ℤ : ℤ → ℤ → Bool
equal_ℤ (pos a) (pos b) = a == b
equal_ℤ (negsuc a) (negsuc b) = a == b
equal_ℤ _ _ = false

-- `i32` subtraction, which wraps in a release build.
unfoldable pub sub_i32 : ℤ → ℤ → ℤ
unfolding as_i32
sub_i32 a b = as_i32 (pos_part a + neg_part b + (u32_mod - (neg_part a + pos_part b) % u32_mod))

-- Whether a value fits a `bigint` column.
abbrev pub fits_i64 : ℤ → Bool
fits_i64 (pos n) = ltb n 9_223_372_036_854_775_808
fits_i64 (negsuc n) = ltb n 9_223_372_036_854_775_808

-- `UPDATE ... WHERE` on the primary key: the row of the key, if there is one.
unfoldable pub update_found {ℓ} :
    {A : Type ℓ} → (A → Bool) → (A → Result Error A) → List A → Result Error (List A)
update_found is_key change [] = ok []
update_found is_key change (x ∷ xs) =
    let later = update_found is_key change xs in
    if is_key x then (do x' ← change x; ok (x' ∷ xs)) else (do xs' ← later; ok (x ∷ xs'))

-- `download.id()`: the version and the day.
abbrev pub same_id : VersionDownload → VersionDownload → Bool
same_id a b = a.version_id == b.version_id && a.date == b.date

unfoldable pub add_to_version : ℤ → Version → Result Error Version
add_to_version amt v =
    if fits_i32 (v.downloads +ℤ amt)
    then ok (record v { downloads = v.downloads +ℤ amt })
    else err out_of_range

unfoldable pub add_to_crate : ℤ → Crate → Result Error Crate
add_to_crate amt c =
    if fits_i32 (c.downloads +ℤ amt)
    then ok (record c { downloads = c.downloads +ℤ amt })
    else err out_of_range

unfoldable pub add_to_counted : ℤ → VersionDownload → Result Error VersionDownload
add_to_counted amt d =
    if fits_i32 (d.counted +ℤ amt)
    then ok (record d { counted = d.counted +ℤ amt })
    else err out_of_range

-- The transaction for a row; the caller keeps the database as it was if it fails.
unfoldable pub propagate : Conn → VersionDownload → Database → Result Error Database
unfolding sub_i32 update_found add_to_version add_to_crate add_to_counted
propagate conn download db =
    let amt = sub_i32 download.downloads download.counted in
    do
      guard (conn.execute download versions) query_failed
      version ← ok_or (find (λ v. v.id == download.version_id) db.versions) not_found
      versions' ← update_found (λ v. v.id == download.version_id) (add_to_version amt) db.versions
      guard (conn.execute download crates) query_failed
      crates' ← update_found (λ c. c.id == version.crate_id) (add_to_crate amt) db.crates
      guard (conn.execute download metadata) query_failed
      guard (fits_i64 (db.total_downloads +ℤ amt)) out_of_range
      guard (conn.execute download version_downloads) query_failed
      rows ← update_found (same_id download) (add_to_counted amt) db.version_downloads
      guard (conn.execute download commit) query_failed
      ok (record {
        versions = versions';
        crates = crates';
        total_downloads = db.total_downloads +ℤ amt;
        version_downloads = rows;
      })

-- The rows before one that fails stay committed.
unfoldable pub collect : Conn → List VersionDownload → Database → Result Error (Unit {0}) × Database
unfolding propagate
collect conn [] db = (ok tt, db)
collect conn (download ∷ rows) db =
    let rest = λ (db' : Database). collect conn rows db' in
    elim (propagate conn download db) [ ok db' ↦ rest db' | err e ↦ (err e, db) ]

-- What the job takes up.
abbrev pub is_due : VersionDownload → Bool
is_due d = not d.processed && not (equal_ℤ d.downloads d.counted)

-- What is counted and of a day that is over is not looked at again.
abbrev pub freeze_row : ℕ → VersionDownload → VersionDownload
freeze_row today d =
    if ltb d.date today && equal_ℤ d.downloads d.counted && not d.processed
    then record d { processed = true }
    else d

abbrev pub freeze_all : ℕ → Database → Database
freeze_all today db = record db { version_downloads = map (freeze_row today) db.version_downloads }

-- What follows after the collection.
unfoldable pub finish :
    Conn → ℕ → Result Error (Unit {0}) × Database → Result Error (Unit {0}) × Database
finish conn today (err e, db) = (err e, db)
finish conn today (ok _, db) =
    if not conn.freeze
    then (err query_failed, db)
    else if not conn.refresh
    then (err query_failed, freeze_all today db)
    else (ok tt, freeze_all today db)

unfoldable pub update : Conn → ℕ → Database → Result Error (Unit {0}) × Database
unfolding collect finish
update conn today db =
    if not conn.load
    then (err query_failed, db)
    else finish conn today (collect conn (filter is_due db.version_downloads) db)
