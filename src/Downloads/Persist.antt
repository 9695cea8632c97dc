-- ===== src/Downloads/Persist.antt =====
-- Persisting shards: what is left in memory, and what is lost when a query fails.
use cargo_website.Base.{
  ℕ, zero, suc, ◌+◌, ◌%◌, ◌<◌, ◌≡◌, ◌≢◌, ◌∙◌, List, [], ◌∷◌, refl, ap, subst, arith, inl, inr, set,
  length, length-set, Result, ok, err, Result-cases,
}
use cargo_website.Base.Words.{u64_mod, wadd, wsub}
use cargo_website.Downloads.{
  Shard, DownloadsCounter, shard_at, Tally, sort_by_key, no_tally, Database, Conn, write_shard,
  Persisted, settle, finish, persist_shard, take_shard, persist_from, persist_all_shards,
  PersistStats, merge, Error, existing_ids,
}
use cargo_website.Downloads.Counts.{shard_total, total, IsBalanced, total-take_shard}
use cargo_website.Downloads.Writing.{
  write_sorted-IsWritten, seen, seen-tally, shard_total-sort_by_key,
}

-- Each download of a shard that is written is counted or discarded.
pub write_shard_total :
    (conn : Conn) (today : ℕ) (db : Database) (s : Shard) {db' : Database} {t : Tally}
    → write_shard conn today db s ≡ ok (db', t)
    → seen t % u64_mod ≡ shard_total s % u64_mod
unfolding write_shard
write_shard_total conn today db s {db'} {t} h =
    let w = write_sorted-IsWritten conn today db (sort_by_key s) h in
    let to_insert = sort_by_key s in
    ap (λ (t : Tally). seen t % u64_mod) w.tallied
    ∙ seen-tally (existing_ids db to_insert) to_insert no_tally
    ∙ omega (arith, shard_total-sort_by_key s)

module _ (conn : Conn) (today : ℕ) (db : Database) (c : DownloadsCounter) (s : Shard) where
  -- The two outcomes of `persist_shard`.
  pub record IsPersisted (stats : PersistStats) (p : Persisted) : Type 0 where
    pub tallied : Tally
    pub written : write_shard conn today db s ≡ ok (p.db, tallied)
    pub inner : p.counter.inner ≡ c.inner
    pub pending :
        p.counter.pending_count
        ≡ wsub c.pending_count (wadd tallied.counted_downloads tallied.discarded_downloads)
    pub reported : stats.pending_downloads ≡ p.counter.pending_count

  finish-IsPersisted :
      (w : Result Error (Database × Tally)) {stats : PersistStats}
      → write_shard conn today db s ≡ w
      → (finish c db w).result ≡ ok stats
      → IsPersisted stats (finish c db w)
  unfolding finish settle wadd wsub
  finish-IsPersisted (ok (db', t)) {stats} e h = record {
    tallied = t;
    written = e;
    inner = refl;
    pending = refl;
    reported = ground arith;
  }
  finish-IsPersisted (err x) e h = cc

  pub persist_shard-IsPersisted :
      {stats : PersistStats}
      → (persist_shard conn today db c s).result ≡ ok stats
      → IsPersisted stats (persist_shard conn today db c s)
  unfolding persist_shard
  persist_shard-IsPersisted h = finish-IsPersisted _ refl h

  finish-err :
      (w : Result Error (Database × Tally)) {e : Error}
      → (finish c db w).result ≡ err e
      → ((finish c db w).db ≡ db) × ((finish c db w).counter ≡ c)
  unfolding finish settle
  finish-err (ok w) h = cc
  finish-err (err x) h = (refl, refl)

  -- If a query fails, the database and the counter are as they were.
  pub persist_shard-err :
      {e : Error}
      → (persist_shard conn today db c s).result ≡ err e
      → ((persist_shard conn today db c s).db ≡ db)
        × ((persist_shard conn today db c s).counter ≡ c)
  unfolding persist_shard
  persist_shard-err h = finish-err _ h

module _ (conn : Conn) (today : ℕ) (db : Database) (c : DownloadsCounter) (i : ℕ) where
  abbrev pub persisted : Persisted
  persisted = persist_shard conn today db (take_shard c i) (shard_at c i)

  -- Taking a shard and persisting it keeps the balance.
  pub persisted-IsBalanced :
      {stats : PersistStats}
      → i < length c.inner
      → IsBalanced c
      → persisted.result ≡ ok stats
      → IsBalanced persisted.counter
  unfolding wadd wsub
  persisted-IsBalanced h b r =
      let p = persist_shard-IsPersisted conn today db (take_shard c i) (shard_at c i) r in
      rw (p.inner, p.pending)
        (omega
          (arith, total-take_shard c i h, write_shard_total conn today db (shard_at c i) p.written))

  -- If the pending count agrees with the map, modulo 2^64, and a query fails while a shard is
  -- persisted, then the database is as it was, the shard's downloads are gone from the map, and the
  -- pending count still counts them.
  pub persisted_loss :
      {e : Error}
      → i < length c.inner
      → IsBalanced c
      → persisted.result ≡ err e
      → (persisted.db ≡ db)
        × (total persisted.counter.inner + shard_total (shard_at c i) ≡ total c.inner)
        × (persisted.counter.pending_count
            ≡ (total persisted.counter.inner + shard_total (shard_at c i)) % u64_mod)
  persisted_loss h b r =
      let (same_db, same) = persist_shard-err conn today db (take_shard c i) (shard_at c i) r in
      (same_db, rw same (total-take_shard c i h), rw same (omega (arith, total-take_shard c i h)))

err-ne-ok : {e : Error} {s : PersistStats} → ◌≢◌ {A = Result Error PersistStats} (err e) (ok s)
err-ne-ok h = cc

-- The first `i` shards are empty.
abbrev pub EmptyBelow : ℕ → List Shard → Type 0
EmptyBelow zero ss = Unit
EmptyBelow (suc i) [] = Unit
EmptyBelow (suc i) (s ∷ ss) = (s ≡ []) × EmptyBelow i ss

EmptyBelow-set : (i : ℕ) (ss : List Shard) → EmptyBelow i ss → EmptyBelow (suc i) (set ss i [])
EmptyBelow-set zero [] h = tt
EmptyBelow-set zero (s ∷ ss) h = (refl, tt)
EmptyBelow-set (suc i) [] h = tt
EmptyBelow-set (suc i) (s ∷ ss) h = (h.0, EmptyBelow-set i ss h.1)

total-EmptyBelow : (ss : List Shard) → EmptyBelow (length ss) ss → total ss ≡ 0
total-EmptyBelow [] h = refl
total-EmptyBelow (s ∷ ss) h = rw (h.0) (omega (arith, total-EmptyBelow ss h.1))

module _ (conn : ℕ → Conn) (today bound : ℕ) (P : ℕ → Database → DownloadsCounter → Type 0)
    (keep : (i : ℕ) (db : Database) (c : DownloadsCounter) (stats : PersistStats)
      → i < bound
      → P i db c
      → (persisted (conn i) today db c i).result ≡ ok stats
      → P
          (suc i)
          (persisted (conn i) today db c i).db
          (persisted (conn i) today db c i).counter) where
  -- The rule of the loop: what each shard keeps holds once the loop returns its statistics.
  pub persist_from_inv :
      (n i : ℕ) (acc : PersistStats) (db : Database) (c : DownloadsCounter) {stats : PersistStats}
      → i + n ≡ bound
      → P i db c
      → (persist_from conn today n i acc db c).result ≡ ok stats
      → P bound
          (persist_from conn today n i acc db c).db
          (persist_from conn today n i acc db c).counter
  unfolding persist_from
  persist_from_inv zero i acc db c e h r = subst (λ k. P k db c) (omega arith) h
  persist_from_inv (suc n) i acc db c e h r =
      elim (Result-cases (persisted (conn i) today db c i).result) [
        | inl (s, k) ↦ rw k (
            persist_from_inv n (suc i) (merge acc s) _ _ (omega arith)
              (keep i db c s (omega arith) h k) (rw k at r))
        | inr (x, k) ↦ absurd (err-ne-ok (rw k at r))
      ]

-- What the loop keeps for the map: so many shards, the first `i` of them empty.
pub record Emptied (shards i : ℕ) (c : DownloadsCounter) : Type 0 where
  pub same_length : length c.inner ≡ shards
  pub below : EmptyBelow i c.inner
  pub balanced : IsBalanced c

pub persisted-Emptied :
    (conn : Conn) (today shards i : ℕ) (db : Database) (c : DownloadsCounter) (stats : PersistStats)
    → i < shards
    → Emptied shards i c
    → (persisted conn today db c i).result ≡ ok stats
    → Emptied shards (suc i) (persisted conn today db c i).counter
persisted-Emptied conn today shards i db c stats h k r =
    let p = persist_shard-IsPersisted conn today db (take_shard c i) (shard_at c i) r in
    record {
      same_length = rw (p.inner) (length-set c.inner i [] ∙ k.same_length);
      below = rw (p.inner) (EmptyBelow-set i c.inner k.below);
      balanced = persisted-IsBalanced conn today db c i (omega arith) k.balanced r;
    }

module _ (conn : ℕ → Conn) (today : ℕ) (db : Database) (c : DownloadsCounter) where
  -- If the pending count agrees with the map, modulo 2^64, then once `persist_all_shards` returns
  -- its statistics, the map holds no downloads and nothing is pending.
  pub persist_all_shards-empty :
      {stats : PersistStats}
      → IsBalanced c
      → (persist_all_shards conn today db c).result ≡ ok stats
      → (total (persist_all_shards conn today db c).counter.inner ≡ 0)
        × ((persist_all_shards conn today db c).counter.pending_count ≡ 0)
  unfolding persist_all_shards
  persist_all_shards-empty b r =
      let shards = length c.inner in
      let k =
        persist_from_inv conn today shards (λ i _ c. Emptied shards i c)
          (λ i db c stats h k r. persisted-Emptied (conn i) today shards i db c stats h k r) shards
          0 _ db c (omega arith) (record { same_length = refl; below = tt; balanced = b }) r in
      let empty = total-EmptyBelow _ (rw (k.same_length) (k.below)) in
      (empty, k.balanced ∙ rw empty)
