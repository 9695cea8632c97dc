-- ===== src/Downloads/Interleaving.antt =====
-- Threads that increment while others persist: the steps that other threads can come between.
use cargo_website.Base.{
  ℕ, suc, ◌+◌, ◌%◌, ◌<◌, ◌≡◌, ◌∙◌, ap, List, [], ◌∷◌, ◌++◌, none, some, refl, arith, length,
  length-append, length-set, ok, err,
}
use cargo_website.Base.Words.{u64_mod, wadd, wsub}
use cargo_website.Downloads.{
  Shard, DownloadsCounter, shard_at, Database, Conn, count_pending, add_existing, add_entry, new,
  take_shard, persist_shard, PersistStats, Error,
}
use cargo_website.Downloads.Counts.{
  shard_total, total, total-take_shard, total-add_entry, pending_count-add_entry,
  add_existing-add_entry,
}
use cargo_website.Downloads.EndToEnd.{new-zero}
use cargo_website.Downloads.Persist.{
  persist_shard-IsPersisted, persist_shard-err, write_shard_total,
}

-- The counter and the database, with the threads that are on the way: those that have counted their
-- download as pending, those that have not found their version's counter, and the shards that are
-- taken and not yet written. `lost` is what the failed writes held.
pub record System : Type 0 where
  pub counter : DownloadsCounter
  pub db : Database
  pub counted : List ℕ
  pub missing : List ℕ
  pub taken : List Shard
  pub lost : ℕ

module _ (shard_of : ℕ → ℕ) where
  pub data Step : System → System → Type 0 where
    start :
        (s : System) (v : ℕ)
        → Step s (record s { counter = count_pending s.counter; counted = v ∷ s.counted })
    found :
        (s : System) (v : ℕ) (before after : List ℕ) {c : DownloadsCounter}
        → s.counted ≡ before ++ v ∷ after
        → add_existing shard_of v s.counter ≡ some c
        → Step s (record s { counter = c; counted = before ++ after })
    not_found :
        (s : System) (v : ℕ) (before after : List ℕ)
        → s.counted ≡ before ++ v ∷ after
        → add_existing shard_of v s.counter ≡ none
        → Step s (record s { counted = before ++ after; missing = v ∷ s.missing })
    enter :
        (s : System) (v : ℕ) (before after : List ℕ)
        → s.missing ≡ before ++ v ∷ after
        → Step s (record s { counter = add_entry shard_of v s.counter; missing = before ++ after })
    take :
        (s : System) (i : ℕ)
        → i < length s.counter.inner
        → Step s
            (record s { counter = take_shard s.counter i; taken = shard_at s.counter i ∷ s.taken })
    write :
        (s : System) (conn : Conn) (today : ℕ) (before after : List Shard) (shard : Shard)
        (stats : PersistStats)
        → s.taken ≡ before ++ shard ∷ after
        → (persist_shard conn today s.db s.counter shard).result ≡ ok stats
        → Step s (record s {
          counter = (persist_shard conn today s.db s.counter shard).counter;
          db = (persist_shard conn today s.db s.counter shard).db;
          taken = before ++ after;
        })
    fail :
        (s : System) (conn : Conn) (today : ℕ) (before after : List Shard) (shard : Shard)
        (e : Error)
        → s.taken ≡ before ++ shard ∷ after
        → (persist_shard conn today s.db s.counter shard).result ≡ err e
        → Step s (record s {
          counter = (persist_shard conn today s.db s.counter shard).counter;
          db = (persist_shard conn today s.db s.counter shard).db;
          taken = before ++ after;
          lost = s.lost + shard_total shard;
        })

  pub data Reach (s : System) : System → Type 0 where
    here : Reach s s
    next : {t u : System} → Reach s t → Step t u → Reach s u

-- All downloads that are counted as pending and neither written nor discarded.
abbrev pub outstanding : System → ℕ
outstanding s = total s.counter.inner + length s.counted + length s.missing + total s.taken + s.lost

pub record IsAccounted (shards : ℕ) (s : System) : Type 0 where
  pub same_length : length s.counter.inner ≡ shards
  pub pending : s.counter.pending_count % u64_mod ≡ outstanding s % u64_mod

length-remove {ℓ} :
    {A : Type ℓ} (xs before : List A) (x : A) (after : List A)
    → xs ≡ before ++ x ∷ after
    → length xs ≡ suc (length (before ++ after))
length-remove xs before x after e =
    ap length e ∙ omega (arith, length-append before (x ∷ after), length-append before after)

total-middle :
    (before : List Shard) (x : Shard) (after : List Shard)
    → total (before ++ x ∷ after) ≡ shard_total x + total (before ++ after)
total-middle [] x after = refl
total-middle (y ∷ before) x after = omega (arith, total-middle before x after)

total-remove :
    (xs before : List Shard) (x : Shard) (after : List Shard)
    → xs ≡ before ++ x ∷ after
    → total xs ≡ shard_total x + total (before ++ after)
total-remove xs before x after e = ap total e ∙ total-middle before x after

abbrev pub at_start : ℕ → Database → System
at_start shards db = record {
  counter = new shards;
  db = db;
  counted = [];
  missing = [];
  taken = [];
  lost = 0;
}

module _ (shard_of : ℕ → ℕ) (shards : ℕ) (in_range : (v : ℕ) → shard_of v < shards) where
  add_entry-length :
      (v : ℕ) (c : DownloadsCounter) → length (add_entry shard_of v c).inner ≡ length c.inner
  unfolding add_entry
  add_entry-length v c = length-set c.inner _ _

  Step-IsAccounted :
      {s s' : System} → Step shard_of s s' → IsAccounted shards s → IsAccounted shards s'
  Step-IsAccounted (start s v) h =
      unfold count_pending wadd in
      record { same_length = h.same_length; pending = omega (arith, h.pending) }
  Step-IsAccounted (found s v before after {c} e f) h =
      let range : shard_of v < length s.counter.inner = omega (arith, in_range v, h.same_length) in
      let same = add_existing-add_entry shard_of v s.counter f in
      rw same (record {
        same_length = add_entry-length v s.counter ∙ h.same_length;
        pending = omega (
          arith,
          h.pending,
          total-add_entry shard_of v s.counter range,
          pending_count-add_entry shard_of v s.counter,
          length-remove s.counted before v after e,
        );
      })
  Step-IsAccounted (not_found s v before after e f) h = record {
    same_length = h.same_length;
    pending = omega (arith, h.pending, length-remove s.counted before v after e);
  }
  Step-IsAccounted (enter s v before after e) h =
      let range : shard_of v < length s.counter.inner = omega (arith, in_range v, h.same_length) in
      record {
        same_length = add_entry-length v s.counter ∙ h.same_length;
        pending = omega (
          arith,
          h.pending,
          total-add_entry shard_of v s.counter range,
          pending_count-add_entry shard_of v s.counter,
          length-remove s.missing before v after e,
        );
      }
  Step-IsAccounted (take s i r) h = record {
    same_length = length-set s.counter.inner i [] ∙ h.same_length;
    pending = omega (arith, h.pending, total-take_shard s.counter i r);
  }
  Step-IsAccounted (write s conn today before after shard stats e r) h =
      let p = persist_shard-IsPersisted conn today s.db s.counter shard r in
      unfold wsub wadd in
      record {
        same_length = rw (p.inner) (h.same_length);
        pending =
            rw (p.inner, p.pending)
              (omega (
                arith,
                h.pending,
                total-remove s.taken before shard after e,
                write_shard_total conn today s.db shard p.written,
              ));
      }
  Step-IsAccounted (fail s conn today before after shard x e r) h =
      let (same_db, same) = persist_shard-err conn today s.db s.counter shard r in
      record {
        same_length = rw same (h.same_length);
        pending = rw same (omega (arith, h.pending, total-remove s.taken before shard after e));
      }

  Reach-IsAccounted :
      {s s' : System} → IsAccounted shards s → Reach shard_of s s' → IsAccounted shards s'
  Reach-IsAccounted h here = h
  Reach-IsAccounted h (next r step) = Step-IsAccounted step (Reach-IsAccounted h r)

  -- If every version has a shard, then in every state that threads reach from an empty counter,
  -- however their steps interleave, the pending count is, modulo 2^64, the number of the downloads
  -- that are in the map, on the way into it, taken out for writing, or lost by a failed write.
  pub pending_count-outstanding :
      (db : Database) (s : System)
      → Reach shard_of (at_start shards db) s
      → s.counter.pending_count % u64_mod ≡ outstanding s % u64_mod
  unfolding new
  pending_count-outstanding db s r =
      let (none_recorded, nothing, so_many) = new-zero shards 0 in
      let h =
        Reach-IsAccounted (record { same_length = so_many; pending = omega (arith, nothing) }) r in
      h.pending
