-- ===== src/Downloads.antt =====
-- src/downloads_counter.rs: download counts collected in memory, and written in batches.
--
-- A shard of the `DashMap` is a list of versions with their counters, `shard_of` is
-- `DashMap::determine_map`, and a version is a number, as its column is a serial. Each step that
-- other threads see at once is a function of its own. `date` is the column's default, the current
-- date of the database.
pub mod Counts
pub mod Writing
pub mod Stored
pub mod Persist
pub mod EndToEnd
pub mod Order
pub mod Interleaving
mod Tests
use cargo_website.Base.{
  ℕ, zero, suc, ◌+◌, ◌%◌, Bool, true, false, not, List, [], ◌∷◌, ◌++◌, Option, none, some, map,
  Result, ok, err, ◌>>=◌, ltb, leb, ◌==◌, ◌&&◌, if◌then◌else◌, any, filter, get_elem?, set, length,
}
use cargo_website.Base.Int.{ℤ, pos, negsuc, ◌+ℤ◌}
use cargo_website.Base.Words.{wadd, wsub, as_i32}

abbrev pub Shard : Type 0
Shard = List (ℕ × ℕ)

pub record DownloadsCounter : Type 0 where
  pub inner : List Shard
  pub shard_idx : ℕ
  pub pending_count : ℕ

-- An empty map with so many shards.
unfoldable pub empty_shards : ℕ → List Shard
empty_shards zero = []
empty_shards (suc n) = [] ∷ empty_shards n

unfoldable pub new : ℕ → DownloadsCounter
unfolding empty_shards
new shards = record { inner = empty_shards shards; shard_idx = 0; pending_count = 0 }

abbrev pub shard_at : DownloadsCounter → ℕ → Shard
shard_at c i = elim (get_elem? c.inner i) [ none ↦ [] | some s ↦ s ]

-- `shard.get(&version_id)`.
unfoldable pub contains : ℕ → Shard → Bool
contains v [] = false
contains v ((k, n) ∷ m) = if k == v then true else contains v m

-- `counter.fetch_add(1)` on the entry of a version, or `or_insert_with(|| AtomicUsize::new(1))`.
unfoldable pub modify_or_insert : ℕ → Shard → Shard
unfolding wadd
modify_or_insert v [] = (v, 1) ∷ []
modify_or_insert v ((k, n) ∷ m) =
    if k == v then (k, wadd n 1) ∷ m else (k, n) ∷ modify_or_insert v m

-- `counter.value().fetch_add(1)`, under the read lock of the shard.
unfoldable pub fetch_add_existing : ℕ → Shard → Shard
unfolding wadd
fetch_add_existing v [] = []
fetch_add_existing v ((k, n) ∷ m) =
    if k == v then (k, wadd n 1) ∷ m else (k, n) ∷ fetch_add_existing v m

pub data Error : Type 0 where
  query_failed out_of_range : Error

pub record PersistStats : Type 0 where
  pub shard : Option ℕ
  pub counted_downloads : ℕ
  pub counted_versions : ℕ
  pub pending_downloads : ℕ

abbrev pub default_stats : PersistStats
default_stats = record {
  shard = none;
  counted_downloads = 0;
  counted_versions = 0;
  pending_downloads = 0;
}

abbrev pub same_shard : Option ℕ → Option ℕ → Bool
same_shard none none = true
same_shard (some a) (some b) = a == b
same_shard _ _ = false

unfoldable pub merge : PersistStats → PersistStats → PersistStats
unfolding wadd
merge self other = record {
  shard = if same_shard self.shard other.shard then other.shard else none;
  counted_downloads = wadd self.counted_downloads other.counted_downloads;
  counted_versions = wadd self.counted_versions other.counted_versions;
  pending_downloads = other.pending_downloads;
}

-- The tables: the ids in `versions`, and the rows of `version_downloads`.
pub record Row : Type 0 where
  pub version_id : ℕ
  pub date : ℕ
  pub downloads : ℤ

pub record Database : Type 0 where
  pub versions : List ℕ
  pub version_downloads : List Row

-- Whether the server answers the two queries.
pub record Conn : Type 0 where
  pub select_succeeds : Bool
  pub insert_succeeds : Bool

unfoldable pub sort_insert : ℕ × ℕ → Shard → Shard
sort_insert (k, n) [] = (k, n) ∷ []
sort_insert (k, n) ((j, m) ∷ s) =
    if leb k j then (k, n) ∷ (j, m) ∷ s else (j, m) ∷ sort_insert (k, n) s

-- `to_insert.sort_by_key(|(key, _)| *key)`, which is stable.
unfoldable pub sort_by_key : Shard → Shard
unfolding sort_insert
sort_by_key [] = []
sort_by_key (e ∷ s) = sort_insert e (sort_by_key s)

-- The result of the loop over `to_insert`.
pub record Tally : Type 0 where
  pub discarded_downloads : ℕ
  pub counted_downloads : ℕ
  pub counted_versions : ℕ
  pub values : List (ℕ × ℤ)

unfoldable pub tally_one : List ℕ → ℕ × ℕ → Tally → Tally
unfolding wadd as_i32
tally_one existing (id, count) t =
    if not (any (λ v. v == id) existing)
    then record t { discarded_downloads = wadd t.discarded_downloads count }
    else record t {
      counted_downloads = wadd t.counted_downloads count;
      counted_versions = wadd t.counted_versions 1;
      values = t.values ++ (id, as_i32 count) ∷ [];
    }

unfoldable pub tally : List ℕ → Shard → Tally → Tally
tally existing [] t = t
tally existing (e ∷ s) t = tally existing s (tally_one existing e t)

abbrev pub no_tally : Tally
no_tally = record {
  discarded_downloads = 0;
  counted_downloads = 0;
  counted_versions = 0;
  values = [];
}

-- Whether a value fits an `integer` column; PostgreSQL refuses the statement otherwise.
abbrev pub fits_i32 : ℤ → Bool
fits_i32 (pos n) = ltb n 2_147_483_648
fits_i32 (negsuc n) = ltb n 2_147_483_648

abbrev checked_row : Row → ℤ → Result Error Row
checked_row r n = if fits_i32 n then ok (record r { downloads = n }) else err out_of_range

-- `ON CONFLICT (version_id, date) DO UPDATE SET downloads = downloads + excluded.downloads`.
unfoldable pub upsert : ℕ → ℕ × ℤ → List Row → Result Error (List Row)
upsert today (id, n) [] = ok (record { version_id = id; date = today; downloads = n } ∷ [])
upsert today (id, n) (r ∷ rows) =
    let later = upsert today (id, n) rows in
    if r.version_id == id && r.date == today
    then (do r' ← checked_row r (r.downloads +ℤ n); ok (r' ∷ rows))
    else (do rows' ← later; ok (r ∷ rows'))

unfoldable pub upsert_all : ℕ → List (ℕ × ℤ) → List Row → Result Error (List Row)
upsert_all today [] rows = ok rows
upsert_all today (v ∷ vs) rows = do rows' ← upsert today v rows; upsert_all today vs rows'

abbrev pub is_empty : Shard → Bool
is_empty [] = true
is_empty (_ ∷ _) = false

-- The `SELECT ... FOR SHARE` of the versions that still exist.
unfoldable pub existing_ids : Database → Shard → List ℕ
existing_ids db to_insert = filter (λ v. any (λ e. e.0 == v) to_insert) db.versions

-- The queries of `persist_shard`: the new rows, and what was counted.
unfoldable pub write_sorted : Conn → ℕ → Database → Shard → Result Error (Database × Tally)
write_sorted conn today db to_insert =
    if is_empty to_insert
    then ok (db, no_tally)
    else if not conn.select_succeeds
    then err query_failed
    else (let t = tally (existing_ids db to_insert) to_insert no_tally in
        if not conn.insert_succeeds then err query_failed else (do
          rows ← upsert_all today t.values db.version_downloads
          ok (record db { version_downloads = rows }, t)))

unfoldable pub write_shard : Conn → ℕ → Database → Shard → Result Error (Database × Tally)
write_shard conn today db shard = write_sorted conn today db (sort_by_key shard)

-- What a call returns, and what it leaves behind.
pub record Persisted : Type 0 where
  pub result : Result Error PersistStats
  pub db : Database
  pub counter : DownloadsCounter

-- `pending_count.fetch_sub`, and the statistics.
unfoldable pub settle : DownloadsCounter → Database × Tally → Persisted
unfolding wadd wsub
settle c (db, t) =
    let left = wsub c.pending_count (wadd t.counted_downloads t.discarded_downloads) in
    record {
      result = ok (record {
        shard = none;
        counted_downloads = t.counted_downloads;
        counted_versions = t.counted_versions;
        pending_downloads = wsub (wsub c.pending_count t.counted_downloads) t.discarded_downloads;
      });
      db = db;
      counter = record c { pending_count = left };
    }

-- A failed query returns at once, and leaves the pending count as it is.
unfoldable pub finish : DownloadsCounter → Database → Result Error (Database × Tally) → Persisted
finish c db (ok written) = settle c written
finish c db (err e) = record { result = err e; db = db; counter = c }

unfoldable pub persist_shard : Conn → ℕ → Database → DownloadsCounter → Shard → Persisted
persist_shard conn today db c shard = finish c db (write_shard conn today db shard)

-- `std::mem::take(&mut *shard.write())`: what is left behind; the contents are `shard_at c i`.
abbrev pub take_shard : DownloadsCounter → ℕ → DownloadsCounter
take_shard c i = record c { inner = set c.inner i [] }

abbrev pub with_shard : ℕ → Result Error PersistStats → Result Error PersistStats
with_shard i (ok stats) = ok (record stats { shard = some i })
with_shard i (err e) = err e

-- `persist_next_shard_with_conn`. A map has at least one shard.
unfoldable pub persist_next_shard : Conn → ℕ → Database → DownloadsCounter → Persisted
unfolding wadd
persist_next_shard conn today db c =
    let idx = c.shard_idx % length c.inner in
    let c' = record (take_shard c idx) { shard_idx = wadd c.shard_idx 1 } in
    let p = persist_shard conn today db c' (shard_at c idx) in
    record p { result = with_shard idx p.result }

-- `?` on the result of one shard.
abbrev pub and_then : Result Error PersistStats → Persisted → (PersistStats → Persisted) → Persisted
and_then (ok s) p later = later s
and_then (err e) p later = p

-- The loop of `persist_all_shards_with_conn`, with `n` shards left, from shard `i` on. The connection
-- may fail at any shard.
unfoldable pub persist_from :
    (ℕ → Conn) → ℕ → ℕ → ℕ → PersistStats → Database → DownloadsCounter → Persisted
persist_from conn today zero i stats db c = record { result = ok stats; db = db; counter = c }
persist_from conn today (suc n) i stats db c =
    let p = persist_shard (conn i) today db (take_shard c i) (shard_at c i) in
    and_then p.result p (λ s. persist_from conn today n (suc i) (merge stats s) p.db p.counter)

unfoldable pub persist_all_shards : (ℕ → Conn) → ℕ → Database → DownloadsCounter → Persisted
persist_all_shards conn today db c = persist_from conn today (length c.inner) 0 default_stats db c

-- `increment` takes two steps or three: it counts the download as pending, adds it to the version's
-- counter if there is one, and goes through the entry if there was none.
unfoldable pub count_pending : DownloadsCounter → DownloadsCounter
unfolding wadd
count_pending c = record c { pending_count = wadd c.pending_count 1 }

module _ (shard_of : ℕ → ℕ) where
  -- `self.inner.get(&version_id)` and the `fetch_add` under its guard; `none` if it is not there.
  unfoldable pub add_existing : ℕ → DownloadsCounter → Option DownloadsCounter
  unfolding contains fetch_add_existing
  add_existing v c =
      let i = shard_of v in
      let s = shard_at c i in
      if contains v s
      then some (record c { inner = set c.inner i (fetch_add_existing v s) })
      else none

  -- `self.inner.entry(version_id)` with both of its outcomes, under the write lock.
  unfoldable pub add_entry : ℕ → DownloadsCounter → DownloadsCounter
  unfolding modify_or_insert
  add_entry v c =
      let i = shard_of v in record c { inner = set c.inner i (modify_or_insert v (shard_at c i)) }

  unfoldable pub increment : DownloadsCounter → ℕ → DownloadsCounter
  increment c v =
      let c' = count_pending c in
      elim (add_existing v c') [ some found ↦ found | none ↦ add_entry v c' ]
