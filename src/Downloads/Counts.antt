-- ===== src/Downloads/Counts.antt =====
-- The downloads that a counter holds, as a sum modulo 2^64, and what each step does to it.
use cargo_website.Base.{
  ℕ, zero, suc, ◌+◌, ◌%◌, ◌<◌, ◌≡◌, true, List, [], ◌∷◌, none, some, refl, arith, if◌then◌else◌,
  ◌==◌, Bool-cases, Option-cases, inl, inr, get_elem?, set, length,
}
use cargo_website.Base.Words.{u64_mod, wadd}
use cargo_website.Downloads.{
  Shard, DownloadsCounter, shard_at, contains, modify_or_insert, fetch_add_existing, count_pending,
  add_existing, add_entry, increment, take_shard,
}

abbrev pub shard_total : Shard → ℕ
shard_total [] = 0
shard_total ((k, n) ∷ s) = n + shard_total s

abbrev pub total : List Shard → ℕ
total [] = 0
total (s ∷ ss) = shard_total s + total ss

-- What is recorded for a version in a shard.
abbrev pub recorded_in : ℕ → Shard → ℕ
recorded_in v [] = 0
recorded_in v ((k, n) ∷ s) = if k == v then n else recorded_in v s

abbrev pub get_shard : List Shard → ℕ → Shard
get_shard ss i = elim (get_elem? ss i) [ none ↦ [] | some s ↦ s ]

pub total-set :
    (ss : List Shard) (i : ℕ) (s : Shard)
    → i < length ss
    → total (set ss i s) + shard_total (get_shard ss i) ≡ total ss + shard_total s
total-set [] i s h = elim h [ ]
total-set (x ∷ ss) zero s h = omega arith
total-set (x ∷ ss) (suc i) s h = omega (arith, total-set ss i s (omega arith))

shard_total-modify_or_insert :
    (v : ℕ) (s : Shard)
    → shard_total (modify_or_insert v s) % u64_mod ≡ (shard_total s + 1) % u64_mod
unfolding modify_or_insert
shard_total-modify_or_insert v [] = refl
shard_total-modify_or_insert v ((k, n) ∷ s) = ground (arith, shard_total-modify_or_insert v s)

fetch_add_existing-modify_or_insert :
    (v : ℕ) (s : Shard) → contains v s ≡ true → fetch_add_existing v s ≡ modify_or_insert v s
unfolding contains fetch_add_existing modify_or_insert
fetch_add_existing-modify_or_insert v [] h = cc
fetch_add_existing-modify_or_insert v ((k, n) ∷ s) h =
    ground (arith, fetch_add_existing-modify_or_insert v s)

module _ (shard_of : ℕ → ℕ) (v : ℕ) where
  pub total-add_entry :
      (c : DownloadsCounter)
      → shard_of v < length c.inner
      → total (add_entry shard_of v c).inner % u64_mod ≡ (total c.inner + 1) % u64_mod
  unfolding add_entry
  total-add_entry c h = omega (
    arith,
    total-set c.inner (shard_of v) (modify_or_insert v (shard_at c (shard_of v))) h,
    shard_total-modify_or_insert v (shard_at c (shard_of v)),
  )

  pub pending_count-add_entry :
      (c : DownloadsCounter) → (add_entry shard_of v c).pending_count ≡ c.pending_count
  unfolding add_entry
  pending_count-add_entry c = refl

  -- Both ways to record a download leave the same map.
  pub add_existing-add_entry :
      (c : DownloadsCounter) {c' : DownloadsCounter}
      → add_existing shard_of v c ≡ some c'
      → c' ≡ add_entry shard_of v c
  unfolding add_existing add_entry
  add_existing-add_entry c h = elim (Bool-cases (contains v (shard_at c (shard_of v)))) [
    | inl e ↦ ground (arith, fetch_add_existing-modify_or_insert v (shard_at c (shard_of v)) e)
    | inr e ↦ ground arith
  ]

  pub increment-add_entry :
      (c : DownloadsCounter) → increment shard_of c v ≡ add_entry shard_of v (count_pending c)
  unfolding increment
  increment-add_entry c = elim (Option-cases (add_existing shard_of v (count_pending c))) [
    | inl e ↦ rw (e, increment)
    | inr (c', e) ↦ rw (e, increment) (add_existing-add_entry (count_pending c) e)
  ]

-- The pending count agrees with the downloads in the map.
abbrev pub IsBalanced : DownloadsCounter → Type 0
IsBalanced c = c.pending_count ≡ total c.inner % u64_mod

-- If the version has a shard, an increment keeps the pending count equal, modulo 2^64, to the
-- downloads in the map.
pub increment-IsBalanced :
    (shard_of : ℕ → ℕ) (c : DownloadsCounter) (v : ℕ)
    → shard_of v < length c.inner
    → IsBalanced c
    → IsBalanced (increment shard_of c v)
unfolding count_pending
increment-IsBalanced shard_of c v h b = rw (increment-add_entry shard_of v c) (
    omega (
      arith,
      total-add_entry shard_of v (count_pending c) h,
      pending_count-add_entry shard_of v (count_pending c),
    ))

pub recorded-modify_or_insert :
    (v w : ℕ) (s : Shard)
    → recorded_in w (modify_or_insert v s)
      ≡ (if v == w then wadd (recorded_in w s) 1 else recorded_in w s)
unfolding modify_or_insert
recorded-modify_or_insert v w [] = ground arith
recorded-modify_or_insert v w ((k, n) ∷ s) = ground (arith, recorded-modify_or_insert v w s)

pub total-take_shard :
    (c : DownloadsCounter) (i : ℕ)
    → i < length c.inner
    → total (take_shard c i).inner + shard_total (shard_at c i) ≡ total c.inner
total-take_shard c i h = omega (arith, total-set c.inner i [] h)
