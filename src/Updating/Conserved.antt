-- ===== src/Updating/Conserved.antt =====
-- No download is lost or counted twice by the job of src/tasks/update_downloads.rs, where it stops.
use cargo_website.Base.{
  ℕ, ◌≡◌, ◌∙◌, refl, sym, ap, subst, inl, inr, Bool, true, false, ◌&&◌, List, [], ◌∷◌, map, some,
  ◌==◌, if◌then◌else◌, find, filter, any, Any, All, All-intro, arith, Bool-cases, Result-cases,
  Result, ok, err,
}
use cargo_website.Base.Int.{ℤ, ◌+ℤ◌}
use cargo_website.Updating.{
  Error, VersionDownload, Version, Crate, Database, Conn, sub_i32, same_id, add_to_version,
  add_to_crate, add_to_counted, propagate, collect, is_due, freeze_row, freeze_all, finish, update,
}
use cargo_website.Updating.Steps.{sum, sum-update_found, update_found-keeps, propagate-IsPropagated}
use cargo_website.Updating.Totals.{
  version_ids, crate_ids, row_ids, in_crate, select, version_total, crate_total, counted_where,
  IsConserved, HasCrates, AreStored, any-view, select_gain, both_gain, IsConserved-refl,
  IsConserved-trans,
}

-- What a change of a row does to it.
changed_version :
    (amt : ℤ) (x x' : Version)
    → add_to_version amt x ≡ ok x'
    → x' ≡ record x { downloads = x.downloads +ℤ amt }
unfolding add_to_version
changed_version amt x x' h = ground arith

changed_crate :
    (amt : ℤ) (x x' : Crate)
    → add_to_crate amt x ≡ ok x'
    → x' ≡ record x { downloads = x.downloads +ℤ amt }
unfolding add_to_crate
changed_crate amt x x' h = ground arith

changed_row :
    (amt : ℤ) (x x' : VersionDownload)
    → add_to_counted amt x ≡ ok x'
    → x' ≡ record x { counted = x.counted +ℤ amt }
unfolding add_to_counted
changed_row amt x x' h = ground arith

found-any : {A : Type 0} (p : A → Bool) (xs : List A) (x : A) → find p xs ≡ some x → any p xs ≡ true
found-any p [] x h = cc
found-any p (y ∷ ys) x h = elim (Bool-cases (p y)) [
  | inl e ↦ ground arith
  | inr e ↦ let rest = found-any p ys x (rw (find, e) at h) in ground arith
]

found-in_crate :
    (vs : List Version) (id c : ℕ) (v : Version)
    → find (λ x. x.id == id) vs ≡ some v
    → in_crate (map (λ (v : Version). (v.id, v.crate_id)) vs) c id ≡ (v.crate_id == c)
found-in_crate [] id c v h = cc
found-in_crate (x ∷ vs) id c v h = elim (Bool-cases (x.id == id)) [
  | inl e ↦ let same : x ≡ v = ground arith in rw (in_crate, e, same) refl
  | inr e ↦ let rest = found-in_crate vs id c v (rw (find, e) at h) in rw (in_crate, e) rest
]

-- A crate that some version belongs to is there.
found-crate :
    (vs : List Version) (ids : List ℕ) (id : ℕ) (v : Version)
    → All
        (λ (k : ℕ × ℕ). any (λ c. c == k.1) ids ≡ true)
        (map (λ (v : Version). (v.id, v.crate_id)) vs)
    → find (λ x. x.id == id) vs ≡ some v
    → any (λ c. c == v.crate_id) ids ≡ true
found-crate [] ids id v h e = cc
found-crate (x ∷ vs) ids id v h e = elim (Bool-cases (x.id == id)) [
  | inl k ↦
      let same : x ≡ v = ground arith in
      subst (λ (z : Version). any (λ c. c == z.crate_id) ids ≡ true) same h.0
  | inr k ↦ found-crate vs ids id v h.1 (rw (find, k) at e)
]

-- A transaction that is committed.
propagate-IsConserved :
    (conn : Conn) (d : VersionDownload) (db db' : Database)
    → propagate conn d db ≡ ok db'
    → HasCrates db
    → any (λ (k : ℕ × ℕ). d.version_id == k.0 && d.date == k.1) (row_ids db) ≡ true
    → IsConserved db db'
propagate-IsConserved conn d db db' h crates_there stored =
    let p = propagate-IsPropagated conn d db db' h in
    let amt = sub_i32 d.downloads d.counted in
    let there : any (same_id d) db.version_downloads ≡ true =
      any-view (λ (k : ℕ × ℕ). d.version_id == k.0 && d.date == k.1)
        (λ (x : VersionDownload). (x.version_id, x.date)) db.version_downloads
      ∙ stored in
    let crate_there : any (λ c. c.id == p.version.crate_id) db.crates ≡ true =
      any-view (λ c. c == p.version.crate_id) (λ (c : Crate). c.id) db.crates
      ∙ found-crate db.versions (crate_ids db) d.version_id p.version crates_there p.found in
    let version_gain : (v : ℕ)
        → version_total v db' ≡ version_total v db +ℤ select (d.version_id == v) amt =
      λ v.
        sum-update_found (λ (x : Version). select (x.id == v) x.downloads) _ (add_to_version amt)
          (select (d.version_id == v) amt)
          (λ x x' k e.
            rw (changed_version amt x x' e)
              (select_gain (λ i. i == v) x.id d.version_id x.downloads amt k))
          db.versions (found-any _ db.versions p.version p.found) p.versions_are in
    let crate_gain : (c : ℕ)
        → crate_total c db' ≡ crate_total c db +ℤ select (p.version.crate_id == c) amt =
      λ c.
        sum-update_found (λ (x : Crate). select (x.id == c) x.downloads) _ (add_to_crate amt)
          (select (p.version.crate_id == c) amt)
          (λ x x' k e.
            rw (changed_crate amt x x' e)
              (select_gain (λ i. i == c) x.id p.version.crate_id x.downloads amt k))
          db.crates crate_there p.crates_are in
    let row_gain : (q : ℕ → Bool)
        → counted_where q db' ≡ counted_where q db +ℤ select (q d.version_id) amt =
      λ q.
        sum-update_found (λ (x : VersionDownload). select (q x.version_id) x.counted) (same_id d)
          (add_to_counted amt) (select (q d.version_id) amt)
          (λ x x' k e.
            rw (changed_row amt x x' e)
              (select_gain q x.version_id d.version_id x.counted amt (ground arith)))
          db.version_downloads there p.rows_are in
    record {
      versions = λ v.
          both_gain (version_total v db) (counted_where (λ id. id == v) db)
            (select (d.version_id == v) amt) (version_gain v) (row_gain (λ id. id == v));
      crates = λ c.
          both_gain (crate_total c db) (counted_where (in_crate (version_ids db) c) db)
            (select (p.version.crate_id == c) amt) (crate_gain c)
            (rw (sym (found-in_crate db.versions d.version_id c p.version p.found))
              (row_gain (in_crate (version_ids db) c)));
      total =
          both_gain db.total_downloads (counted_where (λ _. true) db) amt p.total_is
            (row_gain (λ _. true));
      same_versions =
          update_found-keeps (λ (v : Version). (v.id, v.crate_id)) _ (add_to_version amt)
            (λ x x' e. rw (changed_version amt x x' e) refl) db.versions p.versions_are;
      same_crates =
          update_found-keeps (λ (c : Crate). c.id) _ (add_to_crate amt)
            (λ x x' e. rw (changed_crate amt x x' e) refl) db.crates p.crates_are;
      same_rows =
          update_found-keeps (λ (x : VersionDownload). (x.version_id, x.date)) (same_id d)
            (add_to_counted amt) (λ x x' e. rw (changed_row amt x x' e) refl) db.version_downloads
            p.rows_are;
    }

collect-IsConserved :
    (conn : Conn) (rows : List VersionDownload) (db : Database)
    → HasCrates db
    → AreStored rows db
    → IsConserved db (collect conn rows db).1
unfolding collect
collect-IsConserved conn [] db h k = IsConserved-refl db
collect-IsConserved conn (d ∷ rows) db h k = elim (Result-cases (propagate conn d db)) [
  | inl (db', e) ↦
      let first = propagate-IsConserved conn d db db' e h k.0 in
      let h' : HasCrates db' =
        subst
          (λ (ids : List (ℕ × ℕ)).
            All (λ (v : ℕ × ℕ). any (λ c. c == v.1) (crate_ids db') ≡ true) ids)
          (sym first.same_versions)
          (subst
            (λ (cs : List ℕ). All (λ (v : ℕ × ℕ). any (λ c. c == v.1) cs ≡ true) (version_ids db))
            (sym first.same_crates) h) in
      let k' : AreStored rows db' =
        subst
          (λ (ids : List (ℕ × ℕ)).
            All
              (λ (d : VersionDownload).
                any (λ (k : ℕ × ℕ). d.version_id == k.0 && d.date == k.1) ids ≡ true)
              rows)
          (sym first.same_rows) k.1 in
      rw (collect, e)
        (IsConserved-trans db db' (collect conn rows db').1 first
          (collect-IsConserved conn rows db' h' k'))
  | inr (x, e) ↦ rw (collect, e) (IsConserved-refl db)
]

-- To freeze rows changes nothing that is counted.
freeze_keeps :
    (b : Bool) (d : VersionDownload) (d' : VersionDownload)
    → d' ≡ (if b then record d { processed = true } else d)
    → (d'.version_id ≡ d.version_id) × (d'.date ≡ d.date) × (d'.counted ≡ d.counted)
freeze_keeps true d d' e = rw e (refl, refl, refl)
freeze_keeps false d d' e = rw e (refl, refl, refl)

sum-freeze :
    (today : ℕ) (q : ℕ → Bool) (rows : List VersionDownload)
    → sum (λ (d : VersionDownload). select (q d.version_id) d.counted) (map (freeze_row today) rows)
      ≡ sum (λ (d : VersionDownload). select (q d.version_id) d.counted) rows
sum-freeze today q [] = refl
sum-freeze today q (d ∷ rows) =
    let (same, _, count) = freeze_keeps _ d (freeze_row today d) refl in
    rw (same, count, sum-freeze today q rows) refl

ids-freeze :
    (today : ℕ) (rows : List VersionDownload)
    → map {B = ℕ × ℕ}
        (λ (d : VersionDownload). (d.version_id, d.date))
        (map (freeze_row today) rows)
      ≡ map {B = ℕ × ℕ} (λ (d : VersionDownload). (d.version_id, d.date)) rows
ids-freeze today [] = refl
ids-freeze today (d ∷ rows) =
    let (same, day, _) = freeze_keeps _ d (freeze_row today d) refl in
    rw (same, day, ids-freeze today rows) refl

freeze_all-IsConserved : (today : ℕ) (db : Database) → IsConserved db (freeze_all today db)
freeze_all-IsConserved today db = record {
  versions = λ v.
      ap (λ z. version_total v db +ℤ z)
        (sym (sum-freeze today (λ id. id == v) db.version_downloads));
  crates = λ c.
      ap (λ z. crate_total c db +ℤ z)
        (sym (sum-freeze today (in_crate (version_ids db) c) db.version_downloads));
  total =
      ap (λ z. db.total_downloads +ℤ z) (sym (sum-freeze today (λ _. true) db.version_downloads));
  same_versions = refl;
  same_crates = refl;
  same_rows = ids-freeze today db.version_downloads;
}

finish-IsConserved :
    (conn : Conn) (today : ℕ) (db : Database) (r : Result Error (Unit {0}) × Database)
    → IsConserved db r.1
    → IsConserved db (finish conn today r).1
unfolding finish
finish-IsConserved conn today db (err e, db') h = h
finish-IsConserved conn today db (ok _, db') h =
    let frozen =
      IsConserved-trans db db' (freeze_all today db') h (freeze_all-IsConserved today db') in
    elim (Bool-cases conn.freeze) [
      | inl e ↦ elim (Bool-cases conn.refresh) [
        | inl k ↦ simp (e, k) frozen
        | inr k ↦ simp (e, k) frozen
      ]
      | inr e ↦ simp e h
    ]

member-any :
    (d : VersionDownload) (rows : List VersionDownload)
    → Any (λ y. y ≡ d) rows
    → any
        (λ (k : ℕ × ℕ). d.version_id == k.0 && d.date == k.1)
        (map (λ (x : VersionDownload). (x.version_id, x.date)) rows)
      ≡ true
member-any d [] m = elim m [ ]
member-any d (x ∷ rows) (inl e) =
    let same : (d.version_id == x.version_id && d.date == x.date) ≡ true = ground arith in
    ground arith
member-any d (x ∷ rows) (inr m) = let later = member-any d rows m in ground arith

pub All-filter {κ} :
    {A : Type 0} (P : A → Type κ) (p : A → Bool) (xs : List A) → All P xs → All P (filter p xs)
All-filter P p [] h = tt
All-filter P p (x ∷ xs) h = elim (Bool-cases (p x)) [
  | inl e ↦ rw (filter, e) (h.0, All-filter P p xs h.1)
  | inr e ↦ rw (filter, e) (All-filter P p xs h.1)
]

-- If each version has its crate then the job, wherever it stops, with success or with an error of
-- any statement, keeps the difference between the downloads of each version, of each crate and of
-- the site and the sum of what the rows say is counted of it, and it changes no key.
pub update-IsConserved :
    (conn : Conn) (today : ℕ) (db : Database)
    → HasCrates db
    → IsConserved db (update conn today db).1
unfolding update
update-IsConserved conn today db h = elim (Bool-cases conn.load) [
  | inl e ↦ simp e (
      finish-IsConserved conn today db (collect conn (filter is_due db.version_downloads) db) (
        collect-IsConserved conn (filter is_due db.version_downloads) db h (
          All-filter _ is_due db.version_downloads
            (All-intro db.version_downloads (λ d m. member-any d db.version_downloads m)))))
  | inr e ↦ simp e (IsConserved-refl db)
]
