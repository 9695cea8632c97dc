-- ===== src/Dump/Order.antt =====
-- The loop of `topological_sort`: what holds between its rounds, and that it ends.
use cargo_website.Base.{
  ℕ, zero, suc, ◌+◌, ◌^◌, ◌≤◌, ◌≡◌, ◌∙◌, refl, sym, List, [], ◌∷◌, ◌++◌, some, arith, ap, subst,
  ◌==◌, length, if◌then◌else◌, All, All-map, length-append,
}
use cargo_website.Base.Text.{Text, text_eq_refl}
use cargo_website.Dump.{
  VisibilityConfig, sorted, circular, num_deps, rev_deps, initially_ready, release, sort_loop,
}
use cargo_website.Dump.Occurs.{
  one_if, occurs, occurs-append, occurs-length, hits, hits-nil, hits-add, hits-le, hits-all,
}
use cargo_website.Dump.Release.{Counts, names, count_of, ready-cons, release_lem}
use cargo_website.Dump.Config.{
  tables, deps_of, InOrder, IsConfig, occurs-distinct, count_of-num_deps, names-num_deps,
  rev_deps_lem, length-tables,
}

ready-le :
    (counts : Counts) (t : Text) → occurs t (initially_ready counts) ≤ occurs t (names counts)
unfolding initially_ready
ready-le [] t = omega arith
ready-le ((table, n) ∷ counts) t = ground (arith, ready-cons table n counts t, ready-le counts t)

-- A table that is ready waits for nothing.
count_of-ready :
    (counts : Counts) (t : Text)
    → occurs t (names counts) ≤ 1
    → 1 ≤ occurs t (initially_ready counts)
    → count_of counts t ≡ 0
unfolding initially_ready
count_of-ready [] t h k = refl
count_of-ready ((table, n) ∷ counts) t h k =
    ground (arith, ready-cons table n counts t, ready-le counts t, count_of-ready counts t)

pub ready-count_of :
    (counts : Counts) (t : Text)
    → 1 ≤ occurs t (names counts)
    → count_of counts t ≡ 0
    → 1 ≤ occurs t (initially_ready counts)
unfolding initially_ready
ready-count_of [] t h k = h
ready-count_of ((table, n) ∷ counts) t h k =
    ground (arith, ready-cons table n counts t, ready-count_of counts t)

InOrder-append :
    (config : VisibilityConfig) (earlier xs : List Text) (x : Text)
    → InOrder config earlier xs
    → All (λ d. occurs d (earlier ++ xs) ≡ 1) (deps_of config x)
    → InOrder config earlier (xs ++ x ∷ [])
InOrder-append config earlier [] x h k =
    (All-map (λ d e. omega (arith, occurs-append d earlier [], e)) (deps_of config x) k, tt)
InOrder-append config earlier (y ∷ ys) x h k = (
  h.0,
  InOrder-append config (earlier ++ y ∷ []) ys x h.1 (
      All-map
        (λ d e. omega (
          arith,
          e,
          occurs-append d earlier (y ∷ ys),
          occurs-append d (earlier ++ y ∷ []) ys,
          occurs-append d earlier (y ∷ []),
        ))
        (deps_of config x) k),
)

deps_of-small :
    (config : VisibilityConfig) (t : Text)
    → All (λ (t : Text × List Text). length t.1 ≤ 2 ^ 64) config
    → length (deps_of config t) ≤ 2 ^ 64
deps_of-small [] t h = omega arith
deps_of-small ((table, deps) ∷ config) t h = ground (arith, deps_of-small config t)

module _ (config : VisibilityConfig) (c : IsConfig config) where
  -- What holds before each round: a table waits for those of its dependencies that are not done.
  pub record Inv (counts : Counts) (ready result : List Text) : Type 0 where
    pub same_names : names counts ≡ tables config
    pub waits :
        (t : Text) → count_of counts t + hits result (deps_of config t) ≡ length (deps_of config t)
    pub found : (t : Text) → occurs t result + occurs t ready ≡ occurs t (initially_ready counts)
    pub in_order : InOrder config [] result

  pub Inv-start : Inv (num_deps config) (initially_ready (num_deps config)) []
  Inv-start = record {
    same_names = names-num_deps config;
    waits = λ t. omega (arith, count_of-num_deps config t, hits-nil (deps_of config t));
    found = λ t. omega arith;
    in_order = tt;
  }

  module _ (counts : Counts) (ready result : List Text) (i : Inv counts ready result) where
    once : (t : Text) → occurs t (names counts) ≤ 1
    once t =
        subst (λ ns. occurs t ns ≤ 1) (sym i.same_names)
          (occurs-distinct t (tables config) c.distinct)

    found_once : (t : Text) → occurs t result + occurs t ready ≤ 1
    found_once t = omega (arith, once t, ready-le counts t, i.found t)

    -- What is found are tables.
    pub found-le : (t : Text) → occurs t result + occurs t ready ≤ occurs t (tables config)
    found-le t =
        subst (λ ns. occurs t result + occurs t ready ≤ occurs t ns) i.same_names
          (omega (arith, ready-le counts t, i.found t))

  round :
      (counts : Counts) (p : Text) (ready result : List Text)
      → Inv counts (p ∷ ready) result
      → (counts' : Counts) × (ready' : List Text) × (release (rev_deps config p) counts ready
          ≡ some (counts', ready'))
        × Inv counts' ready' (result ++ p ∷ [])
  round counts p ready result i =
      let single = found_once counts (p ∷ ready) result i in
      let rev = λ (t : Text). rev_deps_lem config p t c.distinct in
      let add = λ (t : Text). hits-add result p (deps_of config t) in
      let le = λ (t : Text).
        hits-le (result ++ p ∷ []) (deps_of config t)
          (λ s. omega (arith, single s, occurs-append s result (p ∷ []))) in
      let (counts', ready', r) =
        release_lem (rev_deps config p) counts ready
          (λ t. omega (arith, rev t, add t, le t, i.waits t))
          (λ t. omega (arith, i.waits t, deps_of-small config t c.small)) in
      let self = ap one_if (text_eq_refl p) in
      let nothing_left =
        count_of-ready counts p (once counts (p ∷ ready) result i p)
          (omega (arith, i.found p, self)) in
      let done =
        hits-all result (deps_of config p) (λ t. omega (arith, single t))
          (omega (arith, i.waits p, nothing_left)) in
      (
        counts',
        ready',
        r.is,
        record {
          same_names = r.same_names ∙ i.same_names;
          waits = λ t. omega (arith, i.waits t, r.lower t, rev t, add t);
          found = λ t. omega (arith, i.found t, r.made_ready t, occurs-append t result (p ∷ []));
          in_order = InOrder-append config [] result p i.in_order done;
        },
      )

  -- With a round for each table that is not done the loop ends, and the result is in order.
  pub loop_ends :
      (fuel : ℕ) (counts : Counts) (ready result : List Text)
      → Inv counts ready result
      → length config ≤ fuel + length result
      → (counts' : Counts) × (result' : List Text) × Inv counts' [] result'
        × (sort_loop fuel config counts ready result
            ≡ (if length config == length result' then sorted result' else circular))
  unfolding sort_loop
  loop_ends fuel counts [] result i h = (counts, result, i, refl)
  loop_ends zero counts (p ∷ ready) result i h =
      let fits = occurs-length (result ++ p ∷ ready) (tables config) (λ t.
        omega
          (arith, found-le counts (p ∷ ready) result i t, occurs-append t result (p ∷ ready))) in
      absurd (omega (arith, fits, length-append result (p ∷ ready), length-tables config))
  loop_ends (suc fuel) counts (p ∷ ready) result i h =
      let (counts1, ready1, e, i1) = round counts p ready result i in
      let (counts2, result2, i2, ends) =
        loop_ends fuel counts1 ready1 (result ++ p ∷ []) i1
          (omega (arith, length-append result (p ∷ []))) in
      (counts2, result2, i2, rw (sort_loop, e) ends)
