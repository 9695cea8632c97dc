-- ===== src/Dump.antt =====
-- `VisibilityConfig::topological_sort` of src/tasks/dump_db/configuration.rs: the order in which the
-- tables of a dump are imported.
mod Config
mod Occurs
mod Sorted
mod Order
mod Release
mod Tests
use cargo_website.Base.{
  ℕ, zero, suc, ◌+◌, ◌-◌, ◌%◌, ◌^◌, Bool, true, false, List, [], ◌∷◌, ◌++◌, map, Option, none, some,
  ◌==◌, if◌then◌else◌, filter, length,
}
use cargo_website.Base.Text.{Text, text_eq}

-- The tables in the order of their names, with what they depend on.
abbrev pub VisibilityConfig : Type 0
VisibilityConfig = List (Text × List Text)

-- The ways in which the loop ends. The loop takes fuel, a round for each table that gets ready.
pub data Outcome : Type 0 where
  sorted : List Text → Outcome
  circular panicked out_of_fuel : Outcome

unfoldable pub num_deps : VisibilityConfig → List (Text × ℕ)
num_deps config = map (λ (t : Text × List Text). (t.0, length t.1)) config

-- `rev_deps.get(dep)`: a table stands in it once for each time that it names `dep`.
unfoldable pub rev_deps : VisibilityConfig → Text → List Text
rev_deps [] dep = []
rev_deps ((table, deps) ∷ config) dep =
    map (λ _. table) (filter (λ d. text_eq d dep) deps) ++ rev_deps config dep

unfoldable pub initially_ready : List (Text × ℕ) → List Text
initially_ready counts = map (λ (c : Text × ℕ). c.0) (filter (λ (c : Text × ℕ). c.1 == 0) counts)

-- `*num_deps.get_mut(dep).unwrap() -= 1`, with the new count.
unfoldable pub decrement : Text → List (Text × ℕ) → Option (ℕ × List (Text × ℕ))
decrement dep [] = none
decrement dep ((table, n) ∷ counts) =
    let rest = decrement dep counts in
    let less = (n + (2 ^ 64 - 1)) % 2 ^ 64 in
    if text_eq table dep
    then some (less, (table, less) ∷ counts)
    else elim rest [ none ↦ none | some (m, counts') ↦ some (m, (table, n) ∷ counts') ]

-- The loop over the tables that depend on the one that is done.
unfoldable pub release :
    List Text → List (Text × ℕ) → List Text → Option (List (Text × ℕ) × List Text)
release [] counts ready = some (counts, ready)
release (dep ∷ deps) counts ready =
    let rest = λ (cs : List (Text × ℕ)) (rs : List Text). release deps cs rs in
    elim (decrement dep counts) [
      | none ↦ none
      | some (n, counts') ↦ rest counts' (if n == 0 then ready ++ dep ∷ [] else ready)
    ]

unfoldable pub sort_loop : ℕ → VisibilityConfig → List (Text × ℕ) → List Text → List Text → Outcome
sort_loop fuel config counts [] result =
    if length config == length result then sorted result else circular
sort_loop zero config counts (table ∷ ready) result = out_of_fuel
sort_loop (suc fuel) config counts (table ∷ ready) result =
    let rest = λ (cs : List (Text × ℕ)) (rs : List Text).
      sort_loop fuel config cs rs (result ++ table ∷ []) in
    elim (release (rev_deps config table) counts ready) [
      | none ↦ panicked
      | some (counts', ready') ↦ rest counts' ready'
    ]

unfoldable pub topological_sort : VisibilityConfig → Outcome
topological_sort config =
    let counts = num_deps config in
    sort_loop (length config) config counts (initially_ready counts) []
