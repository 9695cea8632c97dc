-- ===== src/Updating/Finished.antt =====
-- When the job of src/tasks/update_downloads.rs succeeds, all downloads are counted and the days
-- that are over are frozen.
use cargo_website.Base.{
  ℕ, ◌≡◌, refl, sym, subst, inl, inr, Bool, true, false, ◌&&◌, List, [], ◌∷◌, map, ◌==◌, filter,
  Any, All, All-map, All-intro, arith, Bool-cases, Result-cases, ok, err,
}
use cargo_website.Base.Distinct.{AreDistinct}
use cargo_website.Updating.{
  VersionDownload, Database, Conn, equal_ℤ, sub_i32, same_id, add_to_counted, propagate, collect,
  is_due, update, query_failed,
}
use cargo_website.Updating.Steps.{update_found-keeps, IsPropagated, propagate-IsPropagated}
use cargo_website.Updating.Conserved.{All-filter}
use cargo_website.Updating.Frozen.{equal_ℤ-eq, flags-Any, collect-flags, IsDone, finish-IsDone}
use cargo_website.Updating.Settled.{
  HasCounts, IsSettled, IsWaiting, settle_one, still-there, changed_row,
}

abbrev same_key : ℕ × ℕ → ℕ × ℕ → Bool
same_key a b = a.0 == b.0 && a.1 == b.1

abbrev keys : List VersionDownload → List (ℕ × ℕ)
keys rows = map (λ (d : VersionDownload). (d.version_id, d.date)) rows

All-keys :
    (x : VersionDownload) (rows : List VersionDownload)
    → All (λ y. same_id x y ≡ false) rows
    → All (λ k. same_key (x.version_id, x.date) k ≡ false) (keys rows)
All-keys x [] h = tt
All-keys x (y ∷ rows) h = (h.0, All-keys x rows h.1)

keys-All :
    (x : VersionDownload) (rows : List VersionDownload)
    → All (λ k. same_key (x.version_id, x.date) k ≡ false) (keys rows)
    → All (λ y. same_id x y ≡ false) rows
keys-All x [] h = tt
keys-All x (y ∷ rows) h = (h.0, keys-All x rows h.1)

AreDistinct-keys :
    (rows : List VersionDownload) → AreDistinct same_id rows → AreDistinct same_key (keys rows)
AreDistinct-keys [] h = tt
AreDistinct-keys (x ∷ rows) h = (All-keys x rows h.0, AreDistinct-keys rows h.1)

keys-AreDistinct :
    (rows : List VersionDownload) → AreDistinct same_key (keys rows) → AreDistinct same_id rows
keys-AreDistinct [] h = tt
keys-AreDistinct (x ∷ rows) h = (keys-All x rows h.0, keys-AreDistinct rows h.1)

-- What holds before each transaction: the rows differ in their keys, those that are to be done are
-- among them, and all others are settled.
record IsAhead (pending : List VersionDownload) (db : Database) : Type 0 where
  distinct : AreDistinct same_id db.version_downloads
  differ : AreDistinct same_id pending
  counts : All HasCounts pending
  stored : All (λ (p : VersionDownload). Any (λ y. y ≡ p) db.version_downloads) pending
  waiting : All (IsWaiting pending) db.version_downloads

still_stored :
    (d : VersionDownload) (pending : List VersionDownload) (db db' : Database)
    → IsPropagated d db db'
    → All (λ y. same_id d y ≡ false) pending
    → All (λ (p : VersionDownload). Any (λ y. y ≡ p) db.version_downloads) pending
    → All (λ (p : VersionDownload). Any (λ y. y ≡ p) db'.version_downloads) pending
still_stored d [] db db' i h k = tt
still_stored d (p ∷ pending) db db' i h k = (
  still-there d p (sub_i32 d.downloads d.counted) db.version_downloads h.0 i.rows_are k.0,
  still_stored d pending db db' i h.1 k.1,
)

IsAhead-propagate :
    (conn : Conn) (d : VersionDownload) (pending : List VersionDownload) (db db' : Database)
    → propagate conn d db ≡ ok db'
    → IsAhead (d ∷ pending) db
    → IsAhead pending db'
IsAhead-propagate conn d pending db db' e a =
    let i = propagate-IsPropagated conn d db db' e in
    let amt = sub_i32 d.downloads d.counted in
    let same : keys db'.version_downloads ≡ keys db.version_downloads =
      update_found-keeps (λ (x : VersionDownload). (x.version_id, x.date)) (same_id d)
        (add_to_counted amt) (λ x x' c. rw (changed_row amt x x' c) refl) db.version_downloads
        i.rows_are in
    record {
      distinct = keys-AreDistinct db'.version_downloads (
          subst (λ ks. AreDistinct same_key ks) (sym same)
            (AreDistinct-keys db.version_downloads a.distinct));
      differ = a.differ.1;
      counts = a.counts.1;
      stored = still_stored d pending db db' i a.differ.0 a.stored.1;
      waiting =
          settle_one d a.counts.0 pending db.version_downloads a.distinct a.stored.0 a.waiting
            i.rows_are;
    }

-- When all is done nothing waits.
collect-IsSettled :
    (conn : Conn) (pending : List VersionDownload) (db : Database)
    → IsAhead pending db
    → (collect conn pending db).0 ≡ ok tt
    → All IsSettled (collect conn pending db).1.version_downloads
unfolding collect
collect-IsSettled conn [] db a h =
    All-map (λ x w. elim w [ inl s ↦ s | inr m ↦ elim m [ ] ]) db.version_downloads a.waiting
collect-IsSettled conn (d ∷ pending) db a h = elim (Result-cases (propagate conn d db)) [
  | inl (db', e) ↦
      simp (collect, e)
        (collect-IsSettled conn pending db' (IsAhead-propagate conn d pending db db' e a)
          (simp (collect, e) at h))
  | inr (x, e) ↦
      let failed : (collect conn (d ∷ pending) db).0 ≡ err x = rw (collect, e) refl in absurd (cc)
]

All-false-filter :
    (x : VersionDownload) (rows : List VersionDownload)
    → All (λ y. same_id x y ≡ false) rows
    → All (λ y. same_id x y ≡ false) (filter is_due rows)
All-false-filter x rows h = All-filter (λ y. same_id x y ≡ false) is_due rows h

AreDistinct-filter :
    (rows : List VersionDownload)
    → AreDistinct same_id rows
    → AreDistinct same_id (filter is_due rows)
AreDistinct-filter [] h = tt
AreDistinct-filter (x ∷ rows) h = elim (Bool-cases (is_due x)) [
  | inl e ↦ rw (filter, e) (All-false-filter x rows h.0, AreDistinct-filter rows h.1)
  | inr e ↦ rw (filter, e) (AreDistinct-filter rows h.1)
]

filter-Any :
    (d : VersionDownload) (rows : List VersionDownload)
    → is_due d ≡ true
    → Any (λ y. y ≡ d) rows
    → Any (λ y. y ≡ d) (filter is_due rows)
filter-Any d [] e m = elim m [ ]
filter-Any d (x ∷ rows) e m = elim (Bool-cases (is_due x)) [
  | inl k ↦ rw (filter, k) (elim m [ inl e' ↦ inl e' | inr m' ↦ inr (filter-Any d rows e m') ])
  | inr k ↦
      rw (filter, k)
        (elim m [
          | inl e' ↦
              let due : is_due x ≡ true = subst (λ z. is_due z ≡ true) (sym e') e in absurd (cc)
          | inr m' ↦ filter-Any d rows e m'
        ])
]

not_due : (d : VersionDownload) → is_due d ≡ false → IsSettled d
not_due d e = elim (Bool-cases (equal_ℤ d.downloads d.counted)) [
  | inl k ↦ inr (sym (equal_ℤ-eq d.downloads d.counted k))
  | inr k ↦ inl (ground (arith, k))
]

-- A row that is not due is settled.
IsWaiting-of_due :
    (d : VersionDownload) (rows : List VersionDownload)
    → Any (λ y. y ≡ d) rows
    → IsWaiting (filter is_due rows) d
IsWaiting-of_due d rows m = elim (Bool-cases (is_due d)) [
  | inl e ↦ inr (filter-Any d rows e m)
  | inr e ↦ inl (not_due d e)
]

-- If no two rows are of the same version and day, and the counts of each row are those of a
-- counter, from 0 to below 2 ^ 31, then after a job that succeeds each row either was processed
-- before, or has all its downloads counted, and then it is processed exactly if its day is before
-- the day of the job.
pub update-IsDone :
    (conn : Conn) (today : ℕ) (db : Database)
    → AreDistinct same_id db.version_downloads
    → All HasCounts db.version_downloads
    → (update conn today db).0 ≡ ok tt
    → All (IsDone today db.version_downloads) (update conn today db).1.version_downloads
unfolding update
update-IsDone conn today db h k e = elim (Bool-cases conn.load) [
  | inl l ↦
      let rows = db.version_downloads in
      let ahead : IsAhead (filter is_due rows) db = record {
        distinct = h;
        differ = AreDistinct-filter rows h;
        counts = All-filter HasCounts is_due rows k;
        stored =
            All-filter (λ (p : VersionDownload). Any (λ y. y ≡ p) rows) is_due rows
              (All-intro rows (λ x m. m));
        waiting = All-intro rows (λ x m. IsWaiting-of_due x rows m);
      } in
      let pending = filter is_due rows in
      simp l (
        finish-IsDone conn today rows (collect conn pending db)
          (flags-Any (collect conn pending db).1.version_downloads rows
            (collect-flags conn pending db))
          (collect-IsSettled conn pending db ahead) (simp l at e))
  | inr l ↦ let failed : (update conn today db).0 ≡ err query_failed = simp l refl in absurd (cc)
]
