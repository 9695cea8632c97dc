-- ===== src/Publish/Dependencies.antt =====
-- `add_dependencies` of src/controllers/krate/publish.rs.
use cargo_website.Base.{
  ℕ, suc, Bool, true, false, not, List, [], ◌∷◌, ◌++◌, map, Option, none, some, Result, ok, err,
  ◌>>=◌, if◌then◌else◌, find,
}
use cargo_website.Base.Text.{Text, text_eq}
use cargo_website.Upload.Metadata.{EncodableCrateDependency, DependencyKind, normal}
use cargo_website.Publish.Tables.{
  Crate, Dependency, IndexDependency, Database, Error, other_registry, no_known_crate,
  wildcard_dependency,
}

abbrev pub is_empty : Text → Bool
is_empty [] = true
is_empty (_ ∷ _) = false

-- `Crate::by_exact_name`, the first row.
unfoldable pub by_exact_name : Text → List Crate → Option Crate
by_exact_name name crates = find (λ c. text_eq c.name name) crates

abbrev pub own_registry : EncodableCrateDependency → Result Error Bool
own_registry dep = elim dep.registry [
  | none ↦ ok true
  | some registry ↦ if not (is_empty registry) then err (other_registry dep.name) else ok true
]

-- A kind that is missing: the column's default, and `Normal` in the index.
abbrev pub kind_or_normal : Option DependencyKind → DependencyKind
kind_or_normal none = normal
kind_or_normal (some kind) = kind

-- The name that the index lists, and the package's name where that is another.
abbrev pub index_names : EncodableCrateDependency → Text × Option Text
index_names dep = elim dep.explicit_name_in_toml [
  | some explicit ↦ (explicit, some dep.name)
  | none ↦ (dep.name, none)
]

abbrev pub index_row : EncodableCrateDependency → IndexDependency
index_row dep = record {
  name = (index_names dep).0;
  req = dep.version_req;
  features = dep.features;
  optional = dep.optional;
  default_features = dep.default_features;
  target = dep.target;
  kind = some (kind_or_normal dep.kind);
  package_name = (index_names dep).1;
}

abbrev pub dependency_row : ℕ → Crate → EncodableCrateDependency → ℕ → Dependency
dependency_row target_version_id krate dep id = record {
  id = id;
  version_id = target_version_id;
  crate_id = krate.id;
  req = dep.version_req;
  optional = dep.optional;
  default_features = dep.default_features;
  features = dep.features;
  target = dep.target;
  kind = kind_or_normal dep.kind;
}

-- Whether a requirement parses and is the wildcard `*` is asked of the semver library.
module _ (is_star : Text → Bool) (target_version_id : ℕ) (crates : List Crate) where
  unfoldable pub link : EncodableCrateDependency → Result Error (IndexDependency × (ℕ → Dependency))
  link dep = do
    ours ← own_registry dep
    krate ← found_crate dep.name (by_exact_name dep.name crates)
    if is_star dep.version_req
        then err wildcard_dependency
        else ok (index_row dep, dependency_row target_version_id krate dep)
    where
      found_crate : Text → Option Crate → Result Error Crate
      found_crate name none = err (no_known_crate name)
      found_crate name (some krate) = ok krate

  unfoldable pub link_all :
      List EncodableCrateDependency → Result Error (List (IndexDependency × (ℕ → Dependency)))
  link_all [] = ok []
  link_all (dep ∷ deps) =
      let others = link_all deps in do row ← link dep; rows ← others; ok (row ∷ rows)

-- The rows get the ids of the sequence, one after the other.
unfoldable pub insert_rows : List (ℕ → Dependency) → Database → Database
insert_rows [] db = db
insert_rows (row ∷ rows) db = insert_rows rows (record db {
  dependencies = db.dependencies ++ row db.next_dependency_id ∷ [];
  next_dependency_id = suc db.next_dependency_id;
})

unfoldable pub add_dependencies :
    (Text → Bool)
    → List EncodableCrateDependency
    → ℕ
    → Database
    → Result Error (List IndexDependency × Database)
add_dependencies is_star deps target_version_id db = do
  rows ← link_all is_star target_version_id db.crates deps
  ok (map (λ row. row.0) rows, insert_rows (map (λ row. row.1) rows) db)
