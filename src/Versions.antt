-- ===== src/Versions.antt =====
-- `TopVersions` of src/models/version.rs: the highest and the newest of a crate's versions.
--
-- What semver reads, how it orders versions, and which of them are no prereleases, are parameters.
pub mod Highest
mod Tests
use cargo_website.Base.{
  ℕ, Bool, true, false, ◌&&◌, ◌||◌, List, [], ◌∷◌, map, Option, none, some, ltb, ◌==◌,
  if◌then◌else◌, filter,
}
use cargo_website.Base.Text.{Text}

pub record Semver {ℓ} (V : Type ℓ) : Type ℓ where
  pub parse : Text → Option V
  pub le : V → V → Bool
  pub is_stable : V → Bool

pub record TopVersions {ℓ} (V : Type ℓ) : Type ℓ where
  pub highest : Option V
  pub highest_stable : Option V
  pub newest : Option V

-- `Iterator::max`: of elements that are equal in the order, the last one.
unfoldable pub max_from {ℓ} : {A : Type ℓ} → (A → A → Bool) → A → List A → A
max_from le best [] = best
max_from le best (x ∷ xs) = max_from le (if le best x then x else best) xs

abbrev pub max_of {ℓ} : {A : Type ℓ} → (A → A → Bool) → List A → Option A
max_of le [] = none
max_of le (x ∷ xs) = some (max_from le x xs)

-- The order of pairs: by the date, and then by the version.
unfoldable pub le_pair {ℓ} : {V : Type ℓ} → (V → V → Bool) → ℕ × V → ℕ × V → Bool
le_pair le (d, v) (e, w) = ltb d e || (d == e && le v w)

module _ {ℓ} {V : Type ℓ} (semver : Semver V) where
  -- `filter_map`: versions that cannot be read are left out.
  unfoldable pub parsed : List (ℕ × Text) → List (ℕ × V)
  parsed [] = []
  parsed ((date, version) ∷ pairs) =
      let rest = parsed pairs in
      elim (semver.parse version) [ none ↦ rest | some v ↦ (date, v) ∷ rest ]

  abbrev pub version_of : Option (ℕ × V) → Option V
  version_of none = none
  version_of (some (_, v)) = some v

  unfoldable pub from_date_version_pairs : List (ℕ × Text) → TopVersions V
  from_date_version_pairs pairs =
      let versions = map (λ (p : ℕ × V). p.1) (parsed pairs) in
      record {
        highest = max_of semver.le versions;
        highest_stable = max_of semver.le (filter semver.is_stable versions);
        newest = version_of (max_of (le_pair semver.le) (parsed pairs));
      }
