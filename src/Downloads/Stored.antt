-- ===== src/Downloads/Stored.antt =====
-- What a batch adds to the rows of `version_downloads`.
use cargo_website.Base.{
  ℕ, ◌≡◌, ◌∙◌, sym, Bool, true, false, ◌&&◌, List, [], ◌∷◌, ◌++◌, refl, ap, arith, if◌then◌else◌,
  ◌==◌, leb, ==_iff, Bool-cases, inl, inr, any, filter, ok, Result-cases, bind-eq-ok,
}
use cargo_website.Base.Int.{ℤ, pos, ◌+ℤ◌, +ℤ_assoc, int_laws}
use cargo_website.Base.Words.{as_i32}
use cargo_website.Downloads.{
  Shard, sort_insert, sort_by_key, Tally, tally_one, tally, no_tally, existing_ids, Row, upsert,
  upsert_all, Database, Conn, write_shard,
}
use cargo_website.Downloads.Writing.{IsWritten, write_sorted-IsWritten}

-- The downloads of a version on a day.
abbrev pub stored : ℕ → ℕ → List Row → ℤ
stored v day [] = pos 0
stored v day (r ∷ rows) =
    if r.version_id == v && r.date == day then r.downloads else stored v day rows

-- The sum of what a list of values, or a shard, holds for a version.
abbrev pub value_of : ℕ → List (ℕ × ℤ) → ℤ
value_of v [] = pos 0
value_of v ((k, n) ∷ vs) = (if k == v then n else pos 0) +ℤ value_of v vs

abbrev pub shard_value : ℕ → Shard → ℤ
shard_value v [] = pos 0
shard_value v ((k, n) ∷ s) = (if k == v then as_i32 n else pos 0) +ℤ shard_value v s

abbrev pub added : Bool → ℤ → ℤ
added b n = if b then n else pos 0

pub zero+ℤ : (n : ℤ) → pos 0 +ℤ n ≡ n
zero+ℤ n = omega int_laws

pub +ℤzero : (n : ℤ) → n +ℤ pos 0 ≡ n
+ℤzero n = omega int_laws

stored-upsert :
    (today id v day : ℕ) (n : ℤ) (rows : List Row) {rows' : List Row}
    → upsert today (id, n) rows ≡ ok rows'
    → stored v day rows' ≡ stored v day rows +ℤ added (id == v && today == day) n
unfolding upsert
stored-upsert today id v day n [] h = ground (arith, zero+ℤ n, zero+ℤ (pos 0))
stored-upsert today id v day n (r ∷ rows) h =
    elim (Bool-cases (r.version_id == id && r.date == today)) [
      | inl e ↦ ground (arith, +ℤzero (stored v day rows), +ℤzero r.downloads)
      | inr e ↦ elim (Result-cases (upsert today (id, n) rows)) [
        | inl (rows1, k) ↦ ground (
          arith,
          stored-upsert today id v day n rows k,
          +ℤzero r.downloads,
          +ℤzero (stored v day rows),
        )
        | inr (x, k) ↦ absurd (ground arith)
      ]
    ]

add_one_value :
    (a b : Bool) (s n vs : ℤ)
    → s +ℤ added (a && b) n +ℤ added b vs ≡ s +ℤ added b ((if a then n else pos 0) +ℤ vs)
add_one_value true true s n vs = omega int_laws
add_one_value true false s n vs = omega int_laws
add_one_value false true s n vs = omega int_laws
add_one_value false false s n vs = omega int_laws

pub +ℤ_left_comm : (a b c : ℤ) → a +ℤ (b +ℤ c) ≡ b +ℤ (a +ℤ c)
+ℤ_left_comm a b c = omega int_laws

-- A batch adds to each version its values, on the current day and no other.
stored-upsert_all :
    (today v day : ℕ) (vs : List (ℕ × ℤ)) (rows : List Row) {rows' : List Row}
    → upsert_all today vs rows ≡ ok rows'
    → stored v day rows' ≡ stored v day rows +ℤ added (today == day) (value_of v vs)
unfolding upsert_all
stored-upsert_all today v day [] rows h = ground (arith, +ℤzero (stored v day rows))
stored-upsert_all today v day ((id, n) ∷ vs) rows h =
    let (rows1, e, k) = bind-eq-ok (upsert today (id, n) rows) (upsert_all today vs) h in
    stored-upsert_all today v day vs rows1 k
    ∙ rw (stored-upsert today id v day n rows e) (add_one_value (id == v) (today == day) _ n _)

value_of-append :
    (v : ℕ) (xs ys : List (ℕ × ℤ)) → value_of v (xs ++ ys) ≡ value_of v xs +ℤ value_of v ys
value_of-append v [] ys = omega int_laws
value_of-append v ((k, n) ∷ xs) ys = rw (value_of-append v xs ys) (sym (+ℤ_assoc _ _ _))

value_of-tally_one :
    (v : ℕ) (existing : List ℕ) (id n : ℕ) (t : Tally)
    → value_of v (tally_one existing (id, n) t).values
      ≡ value_of v t.values
        +ℤ added (any (λ w. w == id) existing) (if id == v then as_i32 n else pos 0)
unfolding tally_one
value_of-tally_one v existing id n t = elim (Bool-cases (any (λ w. w == id) existing)) [
  | inl e ↦ rw e (rw (value_of-append v t.values _) (ap (λ z. value_of v t.values +ℤ z) (+ℤzero _)))
  | inr e ↦ rw e (sym (+ℤzero _))
]

tally_one_value :
    (here there same : Bool) (t n s : ℤ)
    → (same ≡ true → here ≡ there)
    → t +ℤ added here (if same then n else pos 0) +ℤ added there s
      ≡ t +ℤ added there ((if same then n else pos 0) +ℤ s)
tally_one_value true true same t n s h = omega int_laws
tally_one_value false false same t n s h = omega int_laws
tally_one_value true false true t n s h = cc (h refl)
tally_one_value false true true t n s h = cc (h refl)
tally_one_value true false false t n s h = omega int_laws
tally_one_value false true false t n s h = omega int_laws

-- The values of a tally for a version are its counts, if the version exists.
value_of-tally :
    (v : ℕ) (existing : List ℕ) (s : Shard) (t : Tally)
    → value_of v (tally existing s t).values
      ≡ value_of v t.values +ℤ added (any (λ w. w == v) existing) (shard_value v s)
unfolding tally
value_of-tally v existing [] t = sym (elim (Bool-cases (any (λ w. w == v) existing)) [
  | inl e ↦ rw e (+ℤzero _)
  | inr e ↦ rw e (+ℤzero _)
])
value_of-tally v existing ((id, n) ∷ s) t =
    value_of-tally v existing s (tally_one existing (id, n) t)
    ∙ rw (value_of-tally_one v existing id n t) (
        tally_one_value (any (λ w. w == id) existing) _ (id == v) _ _ _
          (λ e. ap (λ x. any (λ w. w == x) existing) ((==_iff id v).0 e)))

shard_value-sort_insert :
    (v : ℕ) (e : ℕ × ℕ) (s : Shard) → shard_value v (sort_insert e s) ≡ shard_value v (e ∷ s)
unfolding sort_insert
shard_value-sort_insert v (k, n) [] = refl
shard_value-sort_insert v (k, n) ((j, m) ∷ s) = elim (Bool-cases (leb k j)) [
  | inl e ↦ rw e
  | inr e ↦ rw e (rw (shard_value-sort_insert v (k, n) s) (+ℤ_left_comm _ _ _))
]

shard_value-sort_by_key : (v : ℕ) (s : Shard) → shard_value v (sort_by_key s) ≡ shard_value v s
unfolding sort_by_key
shard_value-sort_by_key v [] = refl
shard_value-sort_by_key v (e ∷ s) =
    shard_value-sort_insert v e (sort_by_key s)
    ∙ ap (λ z. (if e.0 == v then as_i32 e.1 else pos 0) +ℤ z) (shard_value-sort_by_key v s)

abbrev has_key : ℕ → Shard → Bool
has_key v s = any (λ e. e.0 == v) s

any-filter :
    (p : ℕ → Bool) (v : ℕ) (xs : List ℕ)
    → any (λ w. w == v) (filter p xs) ≡ (any (λ w. w == v) xs && p v)
any-filter p v [] = refl
any-filter p v (x ∷ xs) = elim (Bool-cases (x == v)) [
  | inl e ↦ ground (arith, any-filter p v xs, ap p ((==_iff x v).0 e))
  | inr e ↦ ground (arith, any-filter p v xs)
]

shard_value-absent : (v : ℕ) (s : Shard) → has_key v s ≡ false → shard_value v s ≡ pos 0
shard_value-absent v [] h = refl
shard_value-absent v ((k, n) ∷ s) h = ground (arith, shard_value-absent v s, zero+ℤ (pos 0))

-- Leaving out the ids that are not in the shard makes no difference.
added-existing_ids :
    (db : Database) (s : Shard) (v : ℕ)
    → added (any (λ w. w == v) (existing_ids db s)) (shard_value v s)
      ≡ added (any (λ w. w == v) db.versions) (shard_value v s)
unfolding existing_ids
added-existing_ids db s v =
    rw (any-filter (λ w. has_key w s) v db.versions) (elim (Bool-cases (has_key v s)) [
      | inl e ↦ ground arith
      | inr e ↦ ground (arith, shard_value-absent v s e)
    ])

-- The values that a batch writes for a version.
value_of-written :
    (today v : ℕ) (db db' : Database) (s : Shard) (t : Tally)
    → IsWritten today db (sort_by_key s) db' t
    → value_of v t.values ≡ added (any (λ w. w == v) db.versions) (shard_value v s)
value_of-written today v db db' s t w =
    let to_insert = sort_by_key s in
    ap (λ (t : Tally). value_of v t.values) w.tallied
    ∙ value_of-tally v (existing_ids db to_insert) to_insert no_tally
    ∙ zero+ℤ _
    ∙ added-existing_ids db to_insert v
    ∙ ap (added (any (λ w. w == v) db.versions)) (shard_value-sort_by_key v s)

added-added : (b c : Bool) (n : ℤ) → added b (added c n) ≡ added (b && c) n
added-added b c n = ground arith

pub write_shard-versions :
    (conn : Conn) (today : ℕ) (db : Database) (s : Shard) {db' : Database} {t : Tally}
    → write_shard conn today db s ≡ ok (db', t)
    → db'.versions ≡ db.versions
unfolding write_shard
write_shard-versions conn today db s h =
    let w = write_sorted-IsWritten conn today db (sort_by_key s) h in w.versions

-- A batch that is written adds what the shard holds for each version that still exists to the
-- version's downloads of the current day, and changes no other row's downloads.
pub stored-write_shard :
    (conn : Conn) (today : ℕ) (db : Database) (s : Shard) (v day : ℕ) {db' : Database} {t : Tally}
    → write_shard conn today db s ≡ ok (db', t)
    → stored v day db'.version_downloads
      ≡ stored v day db.version_downloads
        +ℤ added (today == day && any (λ w. w == v) db.versions) (shard_value v s)
unfolding write_shard
stored-write_shard conn today db s v day {db'} {t} h =
    let w = write_sorted-IsWritten conn today db (sort_by_key s) h in
    stored-upsert_all today v day t.values db.version_downloads w.stored
    ∙ ap (λ z. stored v day db.version_downloads +ℤ z)
        (ap (added (today == day)) (value_of-written today v db db' s t w)
          ∙ added-added (today == day) (any (λ w. w == v) db.versions) (shard_value v s))
