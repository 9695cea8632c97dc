-- ===== src/Downloads/Tests.antt =====
-- Runs of the downloads counter on a map of two shards, whose even versions are in the first.
use cargo_website.Base.{ℕ, ◌+◌, ◌%◌, ◌≡◌, ◌<◌, refl, true, false, List, [], ◌∷◌, arith}
use cargo_website.Base.Int.{pos, ◌+ℤ◌}
use cargo_website.Downloads.{
  DownloadsCounter, Database, Conn, query_failed, new, increment, persist_all_shards, persist_from,
  persist_shard, finish, settle, write_shard, write_sorted, sort_by_key, sort_insert, existing_ids,
  tally, tally_one, upsert, upsert_all, merge, count_pending, add_existing, add_entry,
  modify_or_insert, contains, fetch_add_existing, empty_shards,
}
use cargo_website.Downloads.Counts.{total}
use cargo_website.Downloads.Stored.{stored}
use cargo_website.Downloads.Persist.{persist_all_shards-empty, persisted_loss, persisted}
use cargo_website.Downloads.EndToEnd.{increments, stored-increments}
use cargo_website.Downloads.Interleaving.{
  System, start, not_found, enter, take, fail, Reach, here, next, at_start, outstanding,
  pending_count-outstanding,
}

abbrev parity : ℕ → ℕ
parity v = v % 2

-- Version 4 has been deleted.
abbrev tables : Database
tables = record {
  versions = 1 ∷ 2 ∷ 3 ∷ [];
  version_downloads = record { version_id = 1; date = 10; downloads = pos 5 } ∷ [];
}

abbrev answering : Conn
answering = record { select_succeeds = true; insert_succeeds = true }

abbrev broken : Conn
broken = record { select_succeeds = true; insert_succeeds = false }

abbrev downloaded : List ℕ
downloaded = 3 ∷ 1 ∷ 4 ∷ 1 ∷ []

abbrev counted : DownloadsCounter
counted = record {
  inner = ((4, 1) ∷ []) ∷ ((3, 1) ∷ (1, 2) ∷ []) ∷ [];
  shard_idx = 0;
  pending_count = 4;
}

counting : increments parity (new 2) downloaded ≡ counted
unfolding increment count_pending add_existing add_entry modify_or_insert contains
    fetch_add_existing new empty_shards
counting = refl

stored-increments_example :
    stored 1 10
      (persist_all_shards
        (λ _. answering)
        10
        tables
        (increments parity (new 2) downloaded)).db.version_downloads
    ≡ pos 7
unfolding increment count_pending add_existing add_entry modify_or_insert contains
    fetch_add_existing new empty_shards persist_all_shards persist_from persist_shard finish settle
    write_shard write_sorted sort_by_key sort_insert existing_ids tally tally_one upsert upsert_all
    ◌+ℤ◌ merge
stored-increments_example =
    stored-increments parity 2 (λ _. answering) 10 1 10 tables downloaded
      (omega arith, (omega arith, (omega arith, (omega arith, tt)))) (omega arith) refl

persist_all_shards-empty_example :
    (total (persist_all_shards (λ _. answering) 10 tables counted).counter.inner ≡ 0)
    × ((persist_all_shards (λ _. answering) 10 tables counted).counter.pending_count ≡ 0)
unfolding persist_all_shards persist_from persist_shard finish settle write_shard write_sorted
    sort_by_key sort_insert existing_ids tally tally_one upsert upsert_all ◌+ℤ◌ merge
persist_all_shards-empty_example =
    persist_all_shards-empty (λ _. answering) 10 tables counted refl refl

persisted_loss_example :
    ((persisted broken 10 tables counted 1).db ≡ tables)
    × (total (persisted broken 10 tables counted 1).counter.inner + 3 ≡ 4)
    × ((persisted broken 10 tables counted 1).counter.pending_count ≡ 4)
unfolding persist_shard finish write_shard write_sorted sort_by_key sort_insert existing_ids tally
    tally_one
persisted_loss_example = persisted_loss broken 10 tables counted 1 (omega arith) refl refl

-- A thread downloads version 2, finds no counter, and goes through the entry; then the shard is taken,
-- and its query fails.
abbrev failed : System
failed = record {
  counter = record { inner = [] ∷ [] ∷ []; shard_idx = 0; pending_count = 1 };
  db = tables;
  counted = [];
  missing = [];
  taken = [];
  lost = 1;
}

race : Reach parity (at_start 2 tables) failed
unfolding new empty_shards count_pending add_existing contains add_entry modify_or_insert
    persist_shard finish write_shard write_sorted sort_by_key sort_insert existing_ids tally
    tally_one
race =
    next
      (next
        (next (next (next here (start _ 2)) (not_found _ 2 [] [] refl refl)) (enter _ 2 [] [] refl))
        (take _ 0 (omega arith)))
      (fail _ broken 10 [] [] ((2, 1) ∷ []) query_failed refl refl)

parity_below : (v : ℕ) → parity v < 2
parity_below v = omega arith

pending_count-outstanding_example :
    1 % 18_446_744_073_709_551_616 ≡ outstanding failed % 18_446_744_073_709_551_616
pending_count-outstanding_example =
    pending_count-outstanding parity 2 parity_below tables failed race
