-- ===== src/Dump/Tests.antt =====
-- A few tables, and two that need each other.
use cargo_website.Base.{◌≡◌, ◌⊎◌, refl, List, [], ◌∷◌, arith}
use cargo_website.Base.Text.{Text, codes, text_eq}
use cargo_website.Dump.{
  VisibilityConfig, sorted, circular, num_deps, rev_deps, initially_ready, decrement, release,
  sort_loop, topological_sort,
}
use cargo_website.Dump.Config.{IsImportOrder, IsConfig}
use cargo_website.Dump.Sorted.{topological_sort_decides}

abbrev few_tables : VisibilityConfig
few_tables =
    (codes "crates", [])
    ∷ (codes "dependencies", codes "crates" ∷ codes "versions" ∷ [])
    ∷ (codes "versions", codes "crates" ∷ [])
    ∷ []

in_order :
    topological_sort few_tables
    ≡ sorted (codes "crates" ∷ codes "versions" ∷ codes "dependencies" ∷ [])
unfolding topological_sort sort_loop num_deps rev_deps initially_ready decrement release text_eq
in_order = refl

in_a_circle :
    topological_sort ((codes "a", codes "b" ∷ []) ∷ (codes "b", codes "a" ∷ []) ∷ []) ≡ circular
unfolding topological_sort sort_loop num_deps rev_deps initially_ready decrement release text_eq
in_a_circle = refl

few_tables-IsConfig : IsConfig few_tables
unfolding text_eq
few_tables-IsConfig = record {
  distinct = ((refl, (refl, tt)), ((refl, tt), (tt, tt)));
  small = (omega arith, (omega arith, (omega arith, tt)));
}

topological_sort_decides_example :
    ((order : List Text) × (topological_sort few_tables ≡ sorted order)
      × IsImportOrder few_tables order)
    ⊎ ((topological_sort few_tables ≡ circular)
        × ((order : List Text) → ¬ IsImportOrder few_tables order))
topological_sort_decides_example = topological_sort_decides few_tables few_tables-IsConfig
