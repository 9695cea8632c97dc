-- ===== src/Downloads/Order.antt =====
-- The order of the rows that one statement writes, on which the absence of deadlocks rests.
use mathlib.Core.List.{append-nil, append_assoc}
use cargo_website.Base.{
  ℕ, suc, ◌≤◌, ◌≡◌, ◌∙◌, sym, false, ◌||◌, List, [], ◌∷◌, ◌++◌, refl, arith, if◌then◌else◌, ok,
  ◌==◌, leb, Bool-cases, inl, inr, any,
}
use cargo_website.Base.Int.{ℤ}
use cargo_website.Base.Words.{as_i32}
use cargo_website.Downloads.{
  Shard, contains, modify_or_insert, sort_insert, sort_by_key, Tally, tally_one, tally, no_tally,
  Database, Conn, write_shard,
}
use cargo_website.Downloads.Writing.{write_sorted-IsWritten}

-- Each version has one entry.
abbrev pub IsKeyed : Shard → Type 0
IsKeyed [] = Unit
IsKeyed ((k, n) ∷ s) = (contains k s ≡ false) × IsKeyed s

-- Strictly ascending, from `lo` on.
abbrev pub AscendsFrom : ℕ → List (ℕ × ℤ) → Type 0
AscendsFrom lo [] = Unit
AscendsFrom lo ((k, n) ∷ vs) = (lo ≤ k) × AscendsFrom (suc k) vs

abbrev SortedFrom : ℕ → Shard → Type 0
SortedFrom lo [] = Unit
SortedFrom lo ((k, n) ∷ s) = (lo ≤ k) × SortedFrom (suc k) s

contains-modify_or_insert :
    (v w : ℕ) (s : Shard) → contains w (modify_or_insert v s) ≡ (contains w s || v == w)
unfolding contains modify_or_insert
contains-modify_or_insert v w [] = ground arith
contains-modify_or_insert v w ((k, n) ∷ s) = ground (arith, contains-modify_or_insert v w s)

-- An increment keeps one entry for each version.
pub modify_or_insert-IsKeyed : (v : ℕ) (s : Shard) → IsKeyed s → IsKeyed (modify_or_insert v s)
unfolding modify_or_insert
modify_or_insert-IsKeyed v [] h = (unfold contains in refl, tt)
modify_or_insert-IsKeyed v ((k, n) ∷ s) h = elim (Bool-cases (k == v)) [
  | inl e ↦ rw e h
  | inr e ↦
      rw e (contains-modify_or_insert v k s ∙ ground (arith, h.0), modify_or_insert-IsKeyed v s h.1)
]

contains-sort_insert :
    (v k n : ℕ) (s : Shard) → contains v (sort_insert (k, n) s) ≡ (k == v || contains v s)
unfolding contains sort_insert
contains-sort_insert v k n [] = ground arith
contains-sort_insert v k n ((j, m) ∷ s) = ground (arith, contains-sort_insert v k n s)

contains-sort_by_key : (v : ℕ) (s : Shard) → contains v (sort_by_key s) ≡ contains v s
unfolding contains sort_by_key
contains-sort_by_key v [] = refl
contains-sort_by_key v ((k, n) ∷ s) =
    contains-sort_insert v k n (sort_by_key s) ∙ ground (arith, contains-sort_by_key v s)

SortedFrom-weaken : (lo lo' : ℕ) (s : Shard) → lo' ≤ lo → SortedFrom lo s → SortedFrom lo' s
SortedFrom-weaken lo lo' [] h k = tt
SortedFrom-weaken lo lo' (e ∷ s) h k = (omega arith, k.1)

sort_insert-SortedFrom :
    (lo k n : ℕ) (s : Shard)
    → lo ≤ k
    → contains k s ≡ false
    → SortedFrom lo s
    → SortedFrom lo (sort_insert (k, n) s)
unfolding sort_insert contains
sort_insert-SortedFrom lo k n [] h c d = (h, tt)
sort_insert-SortedFrom lo k n ((j, m) ∷ s) h c d = elim (Bool-cases (leb k j)) [
  | inl e ↦ rw e (h, (ground arith, d.1))
  | inr e ↦ rw e (d.0, sort_insert-SortedFrom (suc j) k n s (ground arith) (ground arith) d.1)
]

sort_by_key-SortedFrom : (s : Shard) → IsKeyed s → SortedFrom 0 (sort_by_key s)
unfolding sort_by_key
sort_by_key-SortedFrom [] h = tt
sort_by_key-SortedFrom ((k, n) ∷ s) h =
    sort_insert-SortedFrom 0 k n (sort_by_key s) (omega arith) (contains-sort_by_key k s ∙ h.0)
      (sort_by_key-SortedFrom s h.1)

-- The values of a tally, with no accumulator.
values_of : List ℕ → Shard → List (ℕ × ℤ)
values_of existing [] = []
values_of existing ((id, n) ∷ s) =
    if any (λ v. v == id) existing
    then (id, as_i32 n) ∷ values_of existing s
    else values_of existing s

values_of_one :
    (existing : List ℕ) (id n : ℕ) (t : Tally) (vs : List (ℕ × ℤ))
    → (tally_one existing (id, n) t).values ++ vs
      ≡ t.values ++ (if any (λ v. v == id) existing then (id, as_i32 n) ∷ vs else vs)
unfolding tally_one
values_of_one existing id n t vs = elim (Bool-cases (any (λ v. v == id) existing)) [
  | inl e ↦ rw e (append_assoc t.values ((id, as_i32 n) ∷ []) vs)
  | inr e ↦ rw e
]

tally-values_of :
    (existing : List ℕ) (s : Shard) (t : Tally)
    → (tally existing s t).values ≡ t.values ++ values_of existing s
unfolding tally values_of
tally-values_of existing [] t = sym (append-nil t.values)
tally-values_of existing ((id, n) ∷ s) t =
    tally-values_of existing s (tally_one existing (id, n) t)
    ∙ values_of_one existing id n t (values_of existing s)

values_of-AscendsFrom :
    (existing : List ℕ) (lo : ℕ) (s : Shard)
    → SortedFrom lo s
    → AscendsFrom lo (values_of existing s)
unfolding values_of
values_of-AscendsFrom existing lo [] h = tt
values_of-AscendsFrom existing lo ((id, n) ∷ s) h =
    elim (Bool-cases (any (λ v. v == id) existing)) [
      | inl e ↦ rw e (h.0, values_of-AscendsFrom existing (suc id) s h.1)
      | inr e ↦
          rw e (
            values_of-AscendsFrom existing lo s (SortedFrom-weaken (suc id) lo s (omega arith) h.1))
    ]

-- If a shard has one entry for each version and its batch is written, then the rows of the batch
-- stand in strictly ascending order of their versions.
pub write_shard-AscendsFrom :
    (conn : Conn) (today : ℕ) (db : Database) (s : Shard) {db' : Database} {t : Tally}
    → IsKeyed s
    → write_shard conn today db s ≡ ok (db', t)
    → AscendsFrom 0 t.values
unfolding write_shard
write_shard-AscendsFrom conn today db s h r =
    let w = write_sorted-IsWritten conn today db (sort_by_key s) r in
    rw (w.tallied) (
      rw (tally-values_of _ (sort_by_key s) no_tally)
        (values_of-AscendsFrom _ 0 (sort_by_key s) (sort_by_key-SortedFrom s h)))
