-- ===== src/Downloads/Writing.antt =====
-- What is written to the database: in the order of the ids, every download once.
use cargo_website.Base.{
  ℕ, ◌+◌, ◌%◌, ◌≡◌, List, [], ◌∷◌, refl, arith, ◌==◌, Bool-cases, inl, inr, any, ok, Result-cases,
}
use cargo_website.Base.Words.{u64_mod}
use cargo_website.Downloads.{
  Shard, sort_insert, sort_by_key, Tally, tally, tally_one, no_tally, existing_ids, upsert_all,
  write_sorted, Database, Conn,
}
use cargo_website.Downloads.Counts.{shard_total}

shard_total-sort_insert :
    (e : ℕ × ℕ) (s : Shard) → shard_total (sort_insert e s) ≡ e.1 + shard_total s
unfolding sort_insert
shard_total-sort_insert e [] = refl
shard_total-sort_insert e ((j, m) ∷ s) = ground (arith, shard_total-sort_insert e s)

pub shard_total-sort_by_key : (s : Shard) → shard_total (sort_by_key s) ≡ shard_total s
unfolding sort_by_key
shard_total-sort_by_key [] = refl
shard_total-sort_by_key (e ∷ s) =
    omega (arith, shard_total-sort_insert e (sort_by_key s), shard_total-sort_by_key s)

-- All that a tally has taken in.
abbrev pub seen : Tally → ℕ
seen t = t.counted_downloads + t.discarded_downloads

seen-tally_one :
    (existing : List ℕ) (e : ℕ × ℕ) (t : Tally)
    → seen (tally_one existing e t) % u64_mod ≡ (seen t + e.1) % u64_mod
unfolding tally_one
seen-tally_one existing (id, n) t = elim (Bool-cases (any (λ v. v == id) existing)) [
  | inl e ↦ rw e (omega arith)
  | inr e ↦ rw e (omega arith)
]

pub seen-tally :
    (existing : List ℕ) (s : Shard) (t : Tally)
    → seen (tally existing s t) % u64_mod ≡ (seen t + shard_total s) % u64_mod
unfolding tally
seen-tally existing [] t = omega arith
seen-tally existing ((id, n) ∷ s) t =
    omega (
      arith,
      seen-tally existing s (tally_one existing (id, n) t),
      seen-tally_one existing (id, n) t,
    )

-- A write that succeeds has the tally of the sorted shard, and has stored its values.
pub record IsWritten (today : ℕ) (db : Database) (to_insert : Shard) (db' : Database) (t : Tally)
    : Type 0 where
  pub tallied : t ≡ tally (existing_ids db to_insert) to_insert no_tally
  pub versions : db'.versions ≡ db.versions
  pub stored : upsert_all today t.values db.version_downloads ≡ ok db'.version_downloads

pub write_sorted-IsWritten :
    (conn : Conn) (today : ℕ) (db : Database) (s : Shard) {db' : Database} {t : Tally}
    → write_sorted conn today db s ≡ ok (db', t)
    → IsWritten today db s db' t
unfolding write_sorted
write_sorted-IsWritten conn today db [] h = record {
  tallied = unfold tally in ground arith;
  versions = ground arith;
  stored = unfold upsert_all in ground arith;
}
write_sorted-IsWritten conn today db (e ∷ s) {db'} {t} h =
    elim (Result-cases (
      upsert_all today (tally (existing_ids db (e ∷ s)) (e ∷ s) no_tally).values
        db.version_downloads)) [
          | inl (rows, k) ↦ record {
            tallied = ground arith;
            versions = ground arith;
            stored = ground arith;
          }
          | inr (x, k) ↦ absurd (ground arith)
        ]
