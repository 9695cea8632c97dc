-- ===== src/Downloads/EndToEnd.antt =====
-- From the increments to the rows of the database.
use cargo_website.Base.{
  ℕ, zero, suc, ◌+◌, ◌<◌, ◌≤◌, ◌≡◌, ◌∙◌, sym, Bool, true, false, ◌&&◌, List, [], ◌∷◌, refl, ap,
  arith, if◌then◌else◌, ◌==◌, Bool-cases, inl, inr, any, set, length, length-set, All, ok,
}
use cargo_website.Base.Int.{ℤ, pos, ◌+ℤ◌, int_laws}
use cargo_website.Base.Words.{u64_mod, wadd, as_i32_small}
use cargo_website.Downloads.{
  Shard, DownloadsCounter, shard_at, Database, Conn, take_shard, modify_or_insert, add_entry,
  increment, count_pending, new, empty_shards, persist_all_shards, PersistStats,
}
use cargo_website.Downloads.Counts.{
  total, get_shard, IsBalanced, increment-add_entry, increment-IsBalanced,
}
use cargo_website.Downloads.Stored.{
  stored, stored-write_shard, write_shard-versions, added, shard_value, zero+ℤ, +ℤzero,
  +ℤ_left_comm,
}
use cargo_website.Downloads.Persist.{
  EmptyBelow, Emptied, persisted, persisted-Emptied, persist_from_inv, persist_shard-IsPersisted,
}

-- A run of downloads, one after the other.
abbrev pub increments : (ℕ → ℕ) → DownloadsCounter → List ℕ → DownloadsCounter
increments shard_of c [] = c
increments shard_of c (v ∷ vs) = increments shard_of (increment shard_of c v) vs

abbrev pub count : ℕ → List ℕ → ℕ
count v [] = 0
count v (w ∷ vs) = (if w == v then 1 else 0) + count v vs

abbrev recorded : ℕ → Shard → ℕ
recorded v [] = 0
recorded v ((k, n) ∷ s) = (if k == v then n else 0) + recorded v s

abbrev pub recorded_all : ℕ → List Shard → ℕ
recorded_all v [] = 0
recorded_all v (s ∷ ss) = recorded v s + recorded_all v ss

recorded-modify_or_insert :
    (v w : ℕ) (s : Shard)
    → recorded w s + 1 < u64_mod
    → recorded w (modify_or_insert v s) ≡ recorded w s + (if v == w then 1 else 0)
unfolding modify_or_insert wadd
recorded-modify_or_insert v w [] h = ground arith
recorded-modify_or_insert v w ((k, n) ∷ s) h = ground (arith, recorded-modify_or_insert v w s)

recorded_all-set :
    (w : ℕ) (ss : List Shard) (i : ℕ) (s : Shard)
    → i < length ss
    → recorded_all w (set ss i s) + recorded w (get_shard ss i) ≡ recorded_all w ss + recorded w s
recorded_all-set w [] i s h = elim h [ ]
recorded_all-set w (x ∷ ss) zero s h = omega arith
recorded_all-set w (x ∷ ss) (suc i) s h = omega (arith, recorded_all-set w ss i s (omega arith))

recorded-le-all :
    (w : ℕ) (ss : List Shard) (i : ℕ) → recorded w (get_shard ss i) ≤ recorded_all w ss
recorded-le-all w [] i = omega arith
recorded-le-all w (x ∷ ss) zero = omega arith
recorded-le-all w (x ∷ ss) (suc i) = omega (arith, recorded-le-all w ss i)

module _ (shard_of : ℕ → ℕ) where
  length-increment :
      (c : DownloadsCounter) (v : ℕ) → length (increment shard_of c v).inner ≡ length c.inner
  unfolding add_entry count_pending
  length-increment c v = rw (increment-add_entry shard_of v c) (length-set c.inner _ _)

  still_in_range :
      (c : DownloadsCounter) (v : ℕ) (vs : List ℕ)
      → All (λ w. shard_of w < length c.inner) vs
      → All (λ w. shard_of w < length (increment shard_of c v).inner) vs
  still_in_range c v vs h = rw (length-increment c v) h

  -- An increment adds one to the version's downloads, and nothing to another's.
  recorded_all-increment :
      (c : DownloadsCounter) (v w : ℕ)
      → shard_of v < length c.inner
      → recorded_all w c.inner + 1 < u64_mod
      → recorded_all w (increment shard_of c v).inner
        ≡ recorded_all w c.inner + (if v == w then 1 else 0)
  unfolding add_entry count_pending
  recorded_all-increment c v w h k = rw (increment-add_entry shard_of v c) (
      omega (
        arith,
        recorded_all-set w c.inner (shard_of v) (modify_or_insert v (shard_at c (shard_of v))) h,
        recorded-modify_or_insert v w (shard_at c (shard_of v))
            (omega (arith, recorded-le-all w c.inner (shard_of v))),
      ))

  pub recorded_all-increments :
      (c : DownloadsCounter) (vs : List ℕ) (w : ℕ)
      → All (λ v. shard_of v < length c.inner) vs
      → recorded_all w c.inner + count w vs + 1 < u64_mod
      → recorded_all w (increments shard_of c vs).inner ≡ recorded_all w c.inner + count w vs
  recorded_all-increments c [] w h k = omega arith
  recorded_all-increments c (v ∷ vs) w h k =
      let step = recorded_all-increment c v w h.0 (omega arith) in
      recorded_all-increments (increment shard_of c v) vs w (still_in_range c v vs h.1)
        (omega (arith, step))
      ∙ omega (arith, step)

  pub increments-IsBalanced :
      (c : DownloadsCounter) (vs : List ℕ)
      → All (λ v. shard_of v < length c.inner) vs
      → IsBalanced c
      → IsBalanced (increments shard_of c vs)
  increments-IsBalanced c [] h b = b
  increments-IsBalanced c (v ∷ vs) h b =
      increments-IsBalanced (increment shard_of c v) vs (still_in_range c v vs h.1)
        (increment-IsBalanced shard_of c v h.0 b)

-- The counts of a version, as the values that are written.
pos+ℤpos : (a b : ℕ) → pos a +ℤ pos b ≡ pos (a + b)
pos+ℤpos a b = omega int_laws

shard_value-recorded :
    (v : ℕ) (s : Shard) → recorded v s < 2_147_483_648 → shard_value v s ≡ pos (recorded v s)
shard_value-recorded v [] h = refl
shard_value-recorded v ((k, n) ∷ s) h = elim (Bool-cases (k == v)) [
  | inl e ↦
      let fits = rw e at h in
      rw e (
        rw (shard_value-recorded v s (omega arith), as_i32_small n (omega arith))
          (pos+ℤpos n (recorded v s)))
  | inr e ↦ rw e (
      rw (shard_value-recorded v s (let fits = rw e at h in omega (arith, fits)))
        (pos+ℤpos 0 (recorded v s)))
]

abbrev all_value : ℕ → List Shard → ℤ
all_value v [] = pos 0
all_value v (s ∷ ss) = shard_value v s +ℤ all_value v ss

all_value-recorded :
    (v : ℕ) (ss : List Shard)
    → recorded_all v ss < 2_147_483_648
    → all_value v ss ≡ pos (recorded_all v ss)
all_value-recorded v [] h = refl
all_value-recorded v (s ∷ ss) h =
    rw (shard_value-recorded v s (omega arith), all_value-recorded v ss (omega arith))
      (pos+ℤpos (recorded v s) (recorded_all v ss))

all_value-set :
    (v : ℕ) (ss : List Shard) (i : ℕ)
    → i < length ss
    → shard_value v (get_shard ss i) +ℤ all_value v (set ss i []) ≡ all_value v ss
all_value-set v [] i h = elim h [ ]
all_value-set v (x ∷ ss) zero h = rw (zero+ℤ (all_value v ss))
all_value-set v (x ∷ ss) (suc i) h =
    +ℤ_left_comm (shard_value v (get_shard ss i)) (shard_value v x) (all_value v (set ss i []))
    ∙ ap (λ z. shard_value v x +ℤ z) (all_value-set v ss i (omega arith))

all_value-EmptyBelow :
    (v : ℕ) (ss : List Shard) → EmptyBelow (length ss) ss → all_value v ss ≡ pos 0
all_value-EmptyBelow v [] h = refl
all_value-EmptyBelow v (s ∷ ss) h = rw (h.0) (rw (all_value-EmptyBelow v ss h.1) (omega int_laws))

module _ (today v day : ℕ) (start : Database) (goal : ℤ) where
  -- Whether the downloads of the version are written on the day.
  abbrev writes : Bool
  writes = today == day && any (λ w. w == v) start.versions

  -- What the loop keeps for the version: the stored downloads, and those still in the map.
  record Conserved (shards i : ℕ) (db : Database) (c : DownloadsCounter) : Type 0 where
    emptied : Emptied shards i c
    versions : db.versions ≡ start.versions
    sum : stored v day db.version_downloads +ℤ added writes (all_value v c.inner) ≡ goal

  added-zero : (b : Bool) (n : ℤ) → n +ℤ added b (pos 0) ≡ n
  added-zero true n = +ℤzero n
  added-zero false n = +ℤzero n

  -- At the end nothing is left in the map.
  Conserved-end :
      (shards : ℕ) (db : Database) (c : DownloadsCounter)
      → Conserved shards shards db c
      → stored v day db.version_downloads ≡ goal
  Conserved-end shards db c k =
      let empty = all_value-EmptyBelow v c.inner (rw (k.emptied.same_length) (k.emptied.below)) in
      sym (added-zero writes _)
      ∙ ap (λ z. stored v day db.version_downloads +ℤ added writes z) (sym empty)
      ∙ k.sum

  added_sum : (b : Bool) (x y n : ℤ) → x +ℤ added b (n +ℤ y) ≡ x +ℤ added b n +ℤ added b y
  added_sum true x y n = omega int_laws
  added_sum false x y n = omega int_laws

  persisted-Conserved :
      (conn : Conn) (shards i : ℕ) (db : Database) (c : DownloadsCounter) (stats : PersistStats)
      → i < shards
      → Conserved shards i db c
      → (persisted conn today db c i).result ≡ ok stats
      → Conserved shards
          (suc i)
          (persisted conn today db c i).db
          (persisted conn today db c i).counter
  persisted-Conserved conn shards i db c stats h k r =
      let p = persist_shard-IsPersisted conn today db (take_shard c i) (shard_at c i) r in
      record {
        emptied = persisted-Emptied conn today shards i db c stats h k.emptied r;
        versions = write_shard-versions conn today db (shard_at c i) p.written ∙ k.versions;
        sum = rw (p.inner) (
            ap (λ z. z +ℤ added writes (all_value v (set c.inner i [])))
              (stored-write_shard conn today db (shard_at c i) v day p.written
                ∙ ap
                    (λ vs.
                      stored v day db.version_downloads
                      +ℤ added (today == day && any (λ w. w == v) vs)
                          (shard_value v (shard_at c i)))
                    k.versions)
            ∙ sym (
                added_sum writes (stored v day db.version_downloads)
                  (all_value v (set c.inner i [])) (shard_value v (shard_at c i)))
            ∙ ap (λ z. stored v day db.version_downloads +ℤ added writes z)
                (all_value-set v c.inner i (omega (arith, k.emptied.same_length)))
            ∙ k.sum);
      }

-- What `persist_all_shards` has stored once it returns its statistics.
stored-persist_all_shards :
    (conn : ℕ → Conn) (today v day : ℕ) (db : Database) (c : DownloadsCounter)
    {stats : PersistStats}
    → IsBalanced c
    → recorded_all v c.inner < 2_147_483_648
    → (persist_all_shards conn today db c).result ≡ ok stats
    → stored v day (persist_all_shards conn today db c).db.version_downloads
      ≡ stored v day db.version_downloads
        +ℤ added (today == day && any (λ w. w == v) db.versions) (pos (recorded_all v c.inner))
unfolding persist_all_shards
stored-persist_all_shards conn today v day db c b h r =
    let shards = length c.inner in
    let writes = today == day && any (λ w. w == v) db.versions in
    let goal = stored v day db.version_downloads +ℤ added writes (all_value v c.inner) in
    let k =
      persist_from_inv conn today shards (Conserved today v day db goal shards)
        (λ i d c s h k r. persisted-Conserved today v day db goal (conn i) shards i d c s h k r)
        shards 0 _ db c (omega arith)
        (record {
          emptied = record { same_length = refl; below = tt; balanced = b };
          versions = refl;
          sum = refl;
        })
        r in
    Conserved-end today v day db goal shards _ _ k
    ∙ ap (λ z. stored v day db.version_downloads +ℤ added writes z) (all_value-recorded v c.inner h)

pub new-zero :
    (n v : ℕ)
    → (recorded_all v (empty_shards n) ≡ 0)
      × (total (empty_shards n) ≡ 0)
      × (length (empty_shards n) ≡ n)
unfolding empty_shards
new-zero zero v = (refl, refl, refl)
new-zero (suc n) v = omega (arith, new-zero n v)

-- From an empty counter, any sequence of downloads of versions whose shards exist, and a
-- `persist_all_shards` that returns statistics: the database has gained, on the current day and for
-- each version that exists, exactly the number of its downloads, as long as that fits an `i32`; other
-- days and versions that do not exist have gained nothing.
pub stored-increments :
    (shard_of : ℕ → ℕ) (shards : ℕ) (conn : ℕ → Conn) (today v day : ℕ) (db : Database)
    (vs : List ℕ) {stats : PersistStats}
    → All (λ w. shard_of w < shards) vs
    → count v vs < 2_147_483_648
    → (persist_all_shards conn today db (increments shard_of (new shards) vs)).result ≡ ok stats
    → stored v day
        (persist_all_shards conn today db
          (increments shard_of (new shards) vs)).db.version_downloads
      ≡ stored v day db.version_downloads
        +ℤ added (today == day && any (λ w. w == v) db.versions) (pos (count v vs))
unfolding new
stored-increments shard_of shards conn today v day db vs h small r =
    let (none_recorded, nothing, so_many) = new-zero shards v in
    let in_range : All (λ w. shard_of w < length (new shards).inner) vs = rw so_many h in
    let counted : recorded_all v (increments shard_of (new shards) vs).inner ≡ count v vs =
      recorded_all-increments shard_of (new shards) vs v in_range (omega arith) ∙ omega arith in
    stored-persist_all_shards conn today v day db (increments shard_of (new shards) vs)
      (increments-IsBalanced shard_of (new shards) vs in_range (omega arith)) (omega arith) r
    ∙ ap
        (λ n.
          stored v day db.version_downloads
          +ℤ added (today == day && any (λ w. w == v) db.versions) (pos n))
        counted
