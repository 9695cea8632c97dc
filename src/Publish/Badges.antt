-- ===== src/Publish/Badges.antt =====
-- src/models/badge.rs: which badges there are, and the badges of a crate.
use cargo_website.Base.{
  ℕ, not, List, [], ◌∷◌, ◌++◌, Option, none, some, if◌then◌else◌, ◌==◌, filter, find,
}
use cargo_website.Base.Text.{Text, codes, text_eq}
use cargo_website.Publish.Tables.{BadgeRow, Database}

pub data MaintenanceStatus : Type 0 where
  actively_developed passively_maintained as_is none_ experimental : MaintenanceStatus
  looking_for_maintainer deprecated : MaintenanceStatus

pub data Badge : Type 0 where
  travis_ci gitlab circle_ci cirrus_ci : (repository : Text) (branch : Option Text) → Badge
  appveyor : (repository : Text) (id branch project_name service : Option Text) → Badge
  azure_devops : (project pipeline : Text) (build : Option Text) → Badge
  is_it_maintained_issue_resolution is_it_maintained_open_issues : (repository : Text) → Badge
  codecov coveralls : (repository : Text) (branch service : Option Text) → Badge
  bitbucket_pipelines : (repository branch : Text) → Badge
  maintenance : MaintenanceStatus → Badge

abbrev pub Attributes : Type 0
Attributes = List (Text × Text)

unfoldable pub get : Text → Attributes → Option Text
get key attributes = elim (find (λ a. text_eq a.0 key) attributes) [
  | none ↦ none
  | some a ↦ some a.1
]

abbrev pub and_then {ℓ} : {A B : Type ℓ} → Option A → (A → Option B) → Option B
and_then none f = none
and_then (some a) f = f a

-- The value of the first key that is the given one.
abbrev pub choose {ℓ} : {A : Type ℓ} → Text → List (Text × A) → Option A
choose key [] = none
choose key ((k, a) ∷ rest) = if text_eq key k then some a else choose key rest

-- The names of the variants in kebab case.
unfoldable pub status_of : Text → Option MaintenanceStatus
status_of s = choose s (
    (codes "actively-developed", actively_developed)
    ∷ (codes "passively-maintained", passively_maintained)
    ∷ (codes "as-is", as_is)
    ∷ (codes "none", none_)
    ∷ (codes "experimental", experimental)
    ∷ (codes "looking-for-maintainer", looking_for_maintainer)
    ∷ (codes "deprecated", deprecated)
    ∷ [])

-- A variant with a required `repository` and an optional `branch`.
abbrev pub hosted : (Text → Option Text → Badge) → Attributes → Option Badge
hosted badge a =
    and_then (get (codes "repository") a)
      (λ repository. some (badge repository (get (codes "branch") a)))

abbrev pub covered : (Text → Option Text → Option Text → Badge) → Attributes → Option Badge
covered badge a = hosted (λ repository branch. badge repository branch (get (codes "service") a)) a

-- serde's reading of a badge: the tag names the variant, whose required attributes must be there.
-- Attributes that a variant does not have are ignored.
unfoldable pub from_value : Text → Attributes → Option Badge
from_value badge_type a =
    and_then
      (choose badge_type (
        (codes "travis-ci", hosted travis_ci a)
        ∷ (
          codes "appveyor",
          hosted
              (λ repository branch.
                appveyor repository (get (codes "id") a) branch (get (codes "project_name") a)
                  (get (codes "service") a))
              a,
        )
        ∷ (
          codes "azure-devops",
          and_then (get (codes "project") a) (λ project.
              and_then (get (codes "pipeline") a)
                (λ pipeline. some (azure_devops project pipeline (get (codes "build") a)))),
        )
        ∷ (codes "gitlab", hosted gitlab a)
        ∷ (codes "circle-ci", hosted circle_ci a)
        ∷ (codes "cirrus-ci", hosted cirrus_ci a)
        ∷ (
          codes "is-it-maintained-issue-resolution",
          hosted (λ repository _. is_it_maintained_issue_resolution repository) a,
        )
        ∷ (
          codes "is-it-maintained-open-issues",
          hosted (λ repository _. is_it_maintained_open_issues repository) a,
        )
        ∷ (codes "codecov", covered codecov a)
        ∷ (codes "coveralls", covered coveralls a)
        ∷ (
          codes "bitbucket-pipelines",
          and_then (get (codes "repository") a) (λ repository.
              and_then (get (codes "branch") a)
                (λ branch. some (bitbucket_pipelines repository branch))),
        )
        ∷ (
          codes "maintenance",
          and_then (and_then (get (codes "status") a) status_of)
              (λ status. some (maintenance status)),
        )
        ∷ []))
      (λ badge. badge)

-- The badges to insert, and the names of the invalid ones.
unfoldable pub sort_badges : ℕ → List (Text × Attributes) → List BadgeRow × List Text
sort_badges krate [] = ([], [])
sort_badges krate ((k, v) ∷ badges) =
    let (new_badges, invalid_badges) = sort_badges krate badges in
    elim (from_value k v) [
      | some _ ↦
          (record { crate_id = krate; badge_type = k; attributes = v } ∷ new_badges, invalid_badges)
      | none ↦ (new_badges, k ∷ invalid_badges)
    ]

unfoldable pub update_crate :
    ℕ → Option (List (Text × Attributes)) → Database → List Text × Database
update_crate krate badges db =
    let (new_badges, invalid_badges) = sort_badges krate (given badges) in
    (
      invalid_badges,
      record db { badges = filter (λ b. not (b.crate_id == krate)) db.badges ++ new_badges },
    )
  where
    given : Option (List (Text × Attributes)) → List (Text × Attributes)
    given none = []
    given (some badges) = badges
