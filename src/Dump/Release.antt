-- ===== src/Dump/Release.antt =====
-- The counts of dependencies that are left, and what the inner loop of the sort does to them.
use cargo_website.Base.{
  ℕ, ◌+◌, ◌-◌, ◌%◌, ◌^◌, ◌≤◌, ◌≡◌, ◌∙◌, refl, inl, inr, true, false, List, [], ◌∷◌, ◌++◌, map, some,
  arith, Bool-cases, ap, ◌==◌, filter, if◌then◌else◌,
}
use cargo_website.Base.Text.{Text, text_eq, text_eq_iff, text_eq_refl}
use cargo_website.Dump.{initially_ready, decrement, release}
use cargo_website.Dump.Occurs.{one_if, occurs, text_eq-sym, occurs-append}

abbrev pub Counts : Type 0
Counts = List (Text × ℕ)

abbrev pub names : Counts → List Text
names counts = map (λ (c : Text × ℕ). c.0) counts

-- The count of a table, 0 for one that there is not.
abbrev pub count_of : Counts → Text → ℕ
count_of [] t = 0
count_of ((table, n) ∷ counts) t = elim (text_eq table t) [ true ↦ n | false ↦ count_of counts t ]

-- A table that is ready stands once for each row of it with the count 0.
pub ready-cons :
    (table : Text) (n : ℕ) (counts : Counts) (t : Text)
    → occurs t (initially_ready ((table, n) ∷ counts))
      ≡ (if n == 0 then one_if (text_eq table t) else 0) + occurs t (initially_ready counts)
unfolding initially_ready
ready-cons table n counts t = elim (Bool-cases (n == 0)) [
  | inl e ↦ rw (filter, e) refl
  | inr e ↦ rw (filter, e) (omega arith)
]

-- The table `dep` has lost one of the dependencies that it waited for.
pub record Decremented (dep : Text) (counts : Counts) (m : ℕ) (counts' : Counts) : Type 0 where
  pub is : decrement dep counts ≡ some (m, counts')
  pub same_names : names counts' ≡ names counts
  pub count : m + 1 ≡ count_of counts dep
  pub lower : (t : Text) → count_of counts' t + one_if (text_eq dep t) ≡ count_of counts t
  pub ready :
      (t : Text)
      → occurs t (initially_ready counts')
        ≡ occurs t (initially_ready counts) + (if m == 0 then one_if (text_eq dep t) else 0)

-- The first row is that of `dep`.
Decremented-here :
    (dep table : Text) (n : ℕ) (counts : Counts)
    → text_eq table dep ≡ true
    → 1 ≤ n
    → n ≤ 2 ^ 64
    → Decremented dep ((table, n) ∷ counts) (n - 1) ((table, n - 1) ∷ counts)
unfolding decrement
Decremented-here dep table n counts e h k =
    let less : (n + (2 ^ 64 - 1)) % 2 ^ 64 ≡ n - 1 = omega arith in
    let same : table ≡ dep = (text_eq_iff table dep).0 e in
    let eq = λ (t : Text). ap (λ (z : Text). one_if (text_eq z t)) same in
    record {
      is = rw (decrement, less, e) refl;
      same_names = refl;
      count = rw (count_of, e) (omega arith);
      lower = λ t. elim (Bool-cases (text_eq table t)) [
        | inl e' ↦ rw (count_of, e') (let one = ap one_if e' in omega (arith, eq t))
        | inr e' ↦ rw (count_of, e') (let none = ap one_if e' in omega (arith, eq t))
      ];
      ready =
          λ t. ground (arith, ready-cons table (n - 1) counts t, ready-cons table n counts t, eq t);
    }

-- The row of `dep` is a later one.
Decremented-later :
    (dep table : Text) (n : ℕ) (counts : Counts) (m : ℕ) (counts' : Counts)
    → text_eq table dep ≡ false
    → Decremented dep counts m counts'
    → Decremented dep ((table, n) ∷ counts) m ((table, n) ∷ counts')
unfolding decrement
Decremented-later dep table n counts m counts' e d = record {
  is = rw (decrement, d.is, e) refl;
  same_names = ap (λ ns. table ∷ ns) d.same_names;
  count = rw (count_of, e) d.count;
  lower = λ t. elim (Bool-cases (text_eq table t)) [
    | inl e' ↦
        let same : table ≡ t = (text_eq_iff table t).0 e' in
        let other = ap (λ (z : Text). one_if (text_eq dep z)) same in
        let apart = ap one_if e in
        let flip = ap one_if (text_eq-sym table dep) in rw (count_of, e') (omega arith)
    | inr e' ↦ rw (count_of, e') (d.lower t)
  ];
  ready = λ t. omega (arith, ready-cons table n counts' t, ready-cons table n counts t, d.ready t);
}

pub decrement_lem :
    (dep : Text) (counts : Counts)
    → 1 ≤ count_of counts dep
    → count_of counts dep ≤ 2 ^ 64
    → (m : ℕ) × (counts' : Counts) × Decremented dep counts m counts'
decrement_lem dep [] h k = absurd (omega arith)
decrement_lem dep ((table, n) ∷ counts) h k = elim (Bool-cases (text_eq table dep)) [
  | inl e ↦
      let here : count_of ((table, n) ∷ counts) dep ≡ n = rw (count_of, e) refl in
      (
        n - 1,
        (table, n - 1) ∷ counts,
        Decremented-here dep table n counts e (omega arith) (omega arith),
      )
  | inr e ↦
      let there : count_of ((table, n) ∷ counts) dep ≡ count_of counts dep =
        rw (count_of, e) refl in
      let (m, counts', d) = decrement_lem dep counts (omega arith) (omega arith) in
      (m, (table, n) ∷ counts', Decremented-later dep table n counts m counts' e d)
]

-- The inner loop has taken off each count as often as the table stands in `deps`, and has made
-- those tables ready whose count has come to 0.
pub record Released (deps : List Text) (counts : Counts) (ready : List Text) (counts' : Counts)
    (ready' : List Text) : Type 0 where
  pub is : release deps counts ready ≡ some (counts', ready')
  pub same_names : names counts' ≡ names counts
  pub lower : (t : Text) → count_of counts' t + occurs t deps ≡ count_of counts t
  pub made_ready :
      (t : Text)
      → occurs t ready' + occurs t (initially_ready counts)
        ≡ occurs t ready + occurs t (initially_ready counts')

pub release_lem :
    (deps : List Text) (counts : Counts) (ready : List Text)
    → ((t : Text) → occurs t deps ≤ count_of counts t)
    → ((t : Text) → count_of counts t ≤ 2 ^ 64)
    → (counts' : Counts) × (ready' : List Text) × Released deps counts ready counts' ready'
unfolding release
release_lem [] counts ready h k = (
  counts,
  ready,
  record { is = refl; same_names = refl; lower = λ t. omega arith; made_ready = λ t. refl },
)
release_lem (dep ∷ deps) counts ready h k =
    let self = ap one_if (text_eq_refl dep) in
    let (m, counts1, d) = decrement_lem dep counts (omega (arith, h dep)) (k dep) in
    let ready1 = if m == 0 then ready ++ dep ∷ [] else ready in
    let (counts2, ready2, r) =
      release_lem deps counts1 ready1 (λ t. omega (arith, h t, d.lower t))
        (λ t. omega (arith, k t, d.lower t)) in
    let added : (t : Text)
        → occurs t ready1 ≡ occurs t ready + (if m == 0 then one_if (text_eq dep t) else 0) =
      λ t. ground (arith, occurs-append t ready (dep ∷ [])) in
    (
      counts2,
      ready2,
      record {
        is = rw (release, d.is) r.is;
        same_names = r.same_names ∙ d.same_names;
        lower = λ t. omega (arith, d.lower t, r.lower t);
        made_ready = λ t. omega (arith, r.made_ready t, d.ready t, added t);
      },
    )
