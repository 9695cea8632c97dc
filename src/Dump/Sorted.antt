-- ===== src/Dump/Sorted.antt =====
-- `topological_sort` of src/tasks/dump_db/configuration.rs finds an order of import exactly when
-- there is one.
use cargo_website.Base.{
  ◌≤◌, ◌≡◌, ◌∙◌, refl, sym, ◌⊎◌, inl, inr, List, [], ◌∷◌, ◌++◌, arith, Bool-cases, ap, subst, ◌==◌,
  length, All, All-map,
}
use cargo_website.Base.Text.{Text, text_eq, text_eq_iff, text_eq_refl}
use cargo_website.Dump.{
  VisibilityConfig, sorted, circular, num_deps, initially_ready, topological_sort,
}
use cargo_website.Dump.Occurs.{one_if, occurs, occurs-append, occurs-length, occurs-same, hits-full}
use cargo_website.Dump.Release.{Counts, names, count_of}
use cargo_website.Dump.Config.{
  tables, deps_of, InOrder, IsImportOrder, IsConfig, occurs-distinct, length-tables,
}
use cargo_website.Dump.Order.{Inv, Inv-start, ready-count_of, found-le, loop_ends}

module _ (config : VisibilityConfig) (c : IsConfig config) where
  -- When no table is ready, a table all of whose dependencies are done is done.
  done_of_deps :
      (counts : Counts) (result : List Text) (t : Text)
      → Inv config c counts [] result
      → 1 ≤ occurs t (tables config)
      → All (λ d. occurs d result ≡ 1) (deps_of config t)
      → 1 ≤ occurs t result
  done_of_deps counts result t i h k =
      let none_left : count_of counts t ≡ 0 =
        omega (arith, i.waits t, hits-full result (deps_of config t) k) in
      let named : 1 ≤ occurs t (names counts) =
        subst (λ ns. 1 ≤ occurs t ns) (sym i.same_names) h in
      omega (arith, i.found t, ready-count_of counts t named none_left)

  -- So all that an order of import names is done.
  order_done :
      (counts : Counts) (result earlier xs : List Text)
      → Inv config c counts [] result
      → InOrder config earlier xs
      → ((t : Text) → occurs t (earlier ++ xs) ≡ occurs t (tables config))
      → ((t : Text) → 1 ≤ occurs t earlier → 1 ≤ occurs t result)
      → ((t : Text) → occurs t result ≤ 1)
      → (t : Text) → 1 ≤ occurs t (tables config)
      → 1 ≤ occurs t result
  order_done counts result earlier [] i h e k s t m =
      k t (omega (arith, e t, occurs-append t earlier []))
  order_done counts result earlier (x ∷ xs) i h e k s t m =
      let self = ap one_if (text_eq_refl x) in
      let of_x =
        done_of_deps counts result x i (omega (arith, e x, occurs-append x earlier (x ∷ xs), self))
          (All-map (λ d o. omega (arith, s d, k d (omega (arith, o)))) (deps_of config x) h.0) in
      order_done counts result (earlier ++ x ∷ []) xs i h.1
        (λ u. omega (
          arith,
          e u,
          occurs-append u earlier (x ∷ xs),
          occurs-append u (earlier ++ x ∷ []) xs,
          occurs-append u earlier (x ∷ []),
        ))
        (λ u n. elim (Bool-cases (text_eq x u)) [
          | inl same ↦ subst (λ z. 1 ≤ occurs z result) ((text_eq_iff x u).0 same) of_x
          | inr other ↦
              let no = ap one_if other in k u (omega (arith, occurs-append u earlier (x ∷ [])))
        ])
        s t m

-- For tables of different names, none of which lists more than 2 ^ 64 dependencies, the sort of
-- the tables does not panic on a missing entry and always ends. Either it returns an order that
-- has each table once and behind all the tables that it depends on, or it reports a circle and
-- there is no such order.
pub topological_sort_decides :
    (config : VisibilityConfig)
    → IsConfig config
    → ((order : List Text) × (topological_sort config ≡ sorted order) × IsImportOrder config order)
      ⊎ ((topological_sort config ≡ circular)
          × ((order : List Text) → ¬ IsImportOrder config order))
unfolding topological_sort
topological_sort_decides config c =
    let start = Inv-start config c in
    let (counts, result, i, ends) =
      loop_ends config c (length config) (num_deps config) (initially_ready (num_deps config)) []
        start (omega arith) in
    let le : (t : Text) → occurs t result ≤ occurs t (tables config) =
      λ t. omega (arith, found-le config c counts [] result i t) in
    let size = length-tables config in
    let single = λ (t : Text). occurs-distinct t (tables config) c.distinct in
    elim (Bool-cases (length config == length result)) [
      | inl all ↦ inl (
        result,
        ends ∙ rw all refl,
        (occurs-same result (tables config) le (ground arith), i.in_order),
      )
      | inr fewer ↦ inr (
        ends ∙ rw fewer refl,
        λ order o.
            let done =
              order_done config c counts result [] order i o.1 o.0 (λ t h. absurd (omega arith))
                (λ t. omega (arith, le t, single t)) in
            let not_more = occurs-length result (tables config) le in
            let not_less =
              occurs-length (tables config) result (λ t. ground (arith, single t, done t)) in
            ground arith,
      )
    ]
