-- ===== src/Dump/Config.antt =====
-- What a table of the dump depends on, and which orders of the tables are orders of import.
use cargo_website.Base.{
  suc, ◌^◌, ◌≤◌, ◌≡◌, ◌∙◌, refl, inl, inr, true, false, List, [], ◌∷◌, ◌++◌, map, arith, Bool-cases,
  ap, subst, filter, length, All,
}
use cargo_website.Base.Distinct.{AreDistinct}
use cargo_website.Base.Text.{Text, text_eq, text_eq_iff}
use cargo_website.Dump.{VisibilityConfig, num_deps, rev_deps}
use cargo_website.Dump.Occurs.{one_if, occurs, occurs-append, text_eq-sym}
use cargo_website.Dump.Release.{names, count_of}

abbrev pub tables : VisibilityConfig → List Text
tables config = map (λ (t : Text × List Text). t.0) config

-- What a table depends on.
abbrev pub deps_of : VisibilityConfig → Text → List Text
deps_of [] t = []
deps_of ((table, deps) ∷ config) t = elim (text_eq table t) [
  | true ↦ deps
  | false ↦ deps_of config t
]

-- Each of the tables stands behind all that it depends on, after those of `earlier`.
abbrev pub InOrder : VisibilityConfig → List Text → List Text → Type 0
InOrder config earlier [] = Unit
InOrder config earlier (t ∷ order) =
    All (λ d. occurs d earlier ≡ 1) (deps_of config t) × InOrder config (earlier ++ t ∷ []) order

-- An order in which the tables can be imported: each table once, behind its dependencies.
abbrev pub IsImportOrder : VisibilityConfig → List Text → Type 0
IsImportOrder config order =
    ((t : Text) → occurs t order ≡ occurs t (tables config)) × InOrder config [] order

-- The names of the tables differ, as those of a map do, and no list of dependencies is longer than
-- memory.
pub record IsConfig (config : VisibilityConfig) : Type 0 where
  pub distinct : AreDistinct text_eq (tables config)
  pub small : All (λ (t : Text × List Text). length t.1 ≤ 2 ^ 64) config

occurs-absent : (t : Text) (xs : List Text) → All (λ x. text_eq t x ≡ false) xs → occurs t xs ≡ 0
occurs-absent t [] h = refl
occurs-absent t (x ∷ xs) h =
    let none = ap one_if (text_eq-sym x t ∙ h.0) in omega (arith, none, occurs-absent t xs h.1)

pub occurs-distinct : (t : Text) (xs : List Text) → AreDistinct text_eq xs → occurs t xs ≤ 1
occurs-distinct t [] h = omega arith
occurs-distinct t (x ∷ xs) h = elim (Bool-cases (text_eq x t)) [
  | inl e ↦
      let one = ap one_if e in
      let same : x ≡ t = (text_eq_iff x t).0 e in
      let gone : occurs t xs ≡ 0 = subst (λ z. occurs z xs ≡ 0) same (occurs-absent x xs h.0) in
      omega arith
  | inr e ↦ let none = ap one_if e in omega (arith, occurs-distinct t xs h.1)
]

pub count_of-num_deps :
    (config : VisibilityConfig) (t : Text)
    → count_of (num_deps config) t ≡ length (deps_of config t)
unfolding num_deps
count_of-num_deps [] t = refl
count_of-num_deps ((table, deps) ∷ config) t = elim (Bool-cases (text_eq table t)) [
  | inl e ↦ rw (count_of, deps_of, e) refl
  | inr e ↦ rw (count_of, deps_of, e) (count_of-num_deps config t)
]

pub names-num_deps : (config : VisibilityConfig) → names (num_deps config) ≡ tables config
unfolding num_deps
names-num_deps [] = refl
names-num_deps ((table, deps) ∷ config) = ap (λ ns. table ∷ ns) (names-num_deps config)

deps_of-absent :
    (config : VisibilityConfig) (t : Text) → occurs t (tables config) ≡ 0 → deps_of config t ≡ []
deps_of-absent [] t h = refl
deps_of-absent ((table, deps) ∷ config) t h = elim (Bool-cases (text_eq table t)) [
  | inl e ↦ let one = ap one_if e in absurd (omega arith)
  | inr e ↦ let none = ap one_if e in rw (deps_of, e) (deps_of-absent config t (omega arith))
]

occurs-fan :
    (t table d : Text) (deps : List Text)
    → occurs t (map (λ _. table) (filter (λ x. text_eq x d) deps))
      ≡ elim (text_eq table t) [ true ↦ occurs d deps | false ↦ 0 ]
occurs-fan t table d [] = ground arith
occurs-fan t table d (x ∷ deps) = ground (arith, occurs-fan t table d deps)

-- A table stands among those that depend on `d` as often as it names `d`.
pub rev_deps_lem :
    (config : VisibilityConfig) (d t : Text)
    → AreDistinct text_eq (tables config)
    → occurs t (rev_deps config d) ≡ occurs d (deps_of config t)
unfolding rev_deps
rev_deps_lem [] d t h = refl
rev_deps_lem ((table, deps) ∷ config) d t h =
    let parts =
      occurs-append t (map (λ _. table) (filter (λ x. text_eq x d) deps)) (rev_deps config d) in
    let ih = rev_deps_lem config d t h.1 in
    let fan = occurs-fan t table d deps in
    elim (Bool-cases (text_eq table t)) [
      | inl e ↦
          let same : table ≡ t = (text_eq_iff table t).0 e in
          let gone : occurs t (tables config) ≡ 0 =
            subst (λ z. occurs z (tables config) ≡ 0) same
              (occurs-absent table (tables config) h.0) in
          let nothing = ap (occurs d) (deps_of-absent config t gone) in
          ground (arith, parts, ih, fan, nothing)
      | inr e ↦ ground (arith, parts, ih, fan)
    ]

pub length-tables : (config : VisibilityConfig) → length (tables config) ≡ length config
length-tables [] = refl
length-tables (t ∷ config) = ap suc (length-tables config)
