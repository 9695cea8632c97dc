-- ===== src/Versions/Highest.antt =====
-- The top versions are maxima.
use cargo_website.Base.{
  ℕ, ◌≡◌, ◌⊎◌, refl, subst, arith, Bool, true, List, [], ◌∷◌, map, Option, none, some, filter, All,
  Any, Bool-cases, inl, inr,
}
use cargo_website.Base.Text.{Text}
use cargo_website.Versions.{
  Semver, max_from, max_of, le_pair, parsed, version_of, from_date_version_pairs,
}

-- What a total order on versions keeps to.
pub record IsOrder {A : Type 0} (le : A → A → Bool) : Type 0 where
  pub total : (x y : A) → (le x y ≡ true) ⊎ (le y x ≡ true)
  pub transitive : (x y z : A) → le x y ≡ true → le y z ≡ true → le x z ≡ true

-- The element stands in the list, and none in it is greater.
abbrev pub IsMax : {A : Type 0} → (A → A → Bool) → List A → Option A → Type 0
IsMax le [] o = o ≡ none
IsMax {A} le (x ∷ xs) o =
    (m : A) × (o ≡ some m) × Any (λ y. y ≡ m) (x ∷ xs) × All (λ y. le y m ≡ true) (x ∷ xs)

module _ {A : Type 0} (le : A → A → Bool) (order : IsOrder le) where
  reflexive : (x : A) → le x x ≡ true
  reflexive x = elim (order.total x x) [ inl e ↦ e | inr e ↦ e ]

  abbrev IsGreatest : A → List A → A → Type 0
  IsGreatest best xs m =
      (le best m ≡ true) × All (λ y. le y m ≡ true) xs × ((best ≡ m) ⊎ Any (λ y. y ≡ m) xs)

  max_from-IsGreatest : (best : A) (xs : List A) → IsGreatest best xs (max_from le best xs)
  unfolding max_from
  max_from-IsGreatest best [] = (reflexive best, tt, inl refl)
  max_from-IsGreatest best (x ∷ xs) = elim (Bool-cases (le best x)) [
    | inl e ↦
        let same : max_from le x xs ≡ max_from le best (x ∷ xs) = rw (max_from, e) refl in
        let (above, others, stands) = max_from-IsGreatest x xs in
        subst (IsGreatest best (x ∷ xs)) same
          (order.transitive best x _ e above, (above, others), inr stands)
    | inr e ↦
        let same : max_from le best xs ≡ max_from le best (x ∷ xs) = rw (max_from, e) refl in
        let (above, others, stands) = max_from-IsGreatest best xs in
        let below : le x best ≡ true = elim (order.total best x) [
          | inl f ↦ absurd (cc)
          | inr f ↦ f
        ] in
        subst (IsGreatest best (x ∷ xs)) same (
          above,
          (order.transitive x best _ below above, others),
          elim stands [ inl f ↦ inl f | inr f ↦ inr (inr f) ],
        )
  ]

  max_of-IsMax : (xs : List A) → IsMax le xs (max_of le xs)
  max_of-IsMax [] = refl
  max_of-IsMax (x ∷ xs) =
      let (above, others, stands) = max_from-IsGreatest x xs in
      (max_from le x xs, refl, stands, (above, others))

-- The pairs are ordered too.
le_pair-IsOrder : {V : Type 0} (le : V → V → Bool) → IsOrder le → IsOrder (le_pair le)
unfolding le_pair
le_pair-IsOrder le order = record {
  total = λ (d, v) (e, w). elim (order.total v w) [ inl h ↦ ground arith | inr h ↦ ground arith ];
  transitive = λ (d, v) (e, w) (f, u) h k. ground (arith, order.transitive v w u);
}

-- With a total order on the versions: of the versions that can be read, the highest one stands among
-- them and none is greater; so it is for the highest stable one among those that are no prereleases;
-- and the newest one is the version of a pair that no pair follows, in the order of the dates and, on
-- one date, of the versions. Where there is none to choose from, there is none.
pub from_date_version_pairs-IsMax :
    {V : Type 0} (semver : Semver V) (pairs : List (ℕ × Text))
    → IsOrder semver.le
    → let versions = map (λ (p : ℕ × V). p.1) (parsed semver pairs) in
      let top = from_date_version_pairs semver pairs in
      IsMax semver.le versions top.highest
      × IsMax semver.le (filter semver.is_stable versions) top.highest_stable
      × ((newest : Option (ℕ × V)) × (top.newest ≡ version_of semver newest)
          × IsMax (le_pair semver.le) (parsed semver pairs) newest)
unfolding from_date_version_pairs
from_date_version_pairs-IsMax {V} semver pairs order = (
  max_of-IsMax semver.le order (map (λ (p : ℕ × V). p.1) (parsed semver pairs)),
  max_of-IsMax semver.le order
      (filter semver.is_stable (map (λ (p : ℕ × V). p.1) (parsed semver pairs))),
  (
    max_of (le_pair semver.le) (parsed semver pairs),
    refl,
    max_of-IsMax (le_pair semver.le) (le_pair-IsOrder semver.le order) (parsed semver pairs),
  ),
)
