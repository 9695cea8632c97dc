-- ===== src/Upload/Metadata.antt =====
-- The metadata of an upload: the JSON as serde reads it, and the checks of its fields together.
--
-- A map is a list of its entries. Which check fails first is left open: the caller reports one error.
use cargo_website.Base.{Bool, List, Option, none, some, Result, ok, ◌>>=◌}
use cargo_website.Base.Text.{Text}
use cargo_website.Names.{Unicode}
use cargo_website.Upload.{
  Error, each, crate_name, dependency_name, feature_name, feature, keyword_list, category_list,
  version, version_req,
}

-- `DependencyKind` of src/models/dependency.rs.
pub data DependencyKind : Type 0 where
  normal build dev : DependencyKind

pub record EncodableCrateDependency : Type 0 where
  pub optional : Bool
  pub default_features : Bool
  pub name : Text
  pub features : List Text
  pub version_req : Text
  pub target : Option Text
  pub kind : Option DependencyKind
  pub explicit_name_in_toml : Option Text
  pub registry : Option Text

-- `vers` is the version as it is printed.
pub record EncodableCrateUpload : Type 0 where
  pub name : Text
  pub vers : Text
  pub deps : List EncodableCrateDependency
  pub features : List (Text × List Text)
  pub description : Option Text
  pub homepage : Option Text
  pub documentation : Option Text
  pub readme : Option Text
  pub readme_file : Option Text
  pub keywords : List Text
  pub categories : List Text
  pub license : Option Text
  pub license_file : Option Text
  pub repository : Option Text
  pub badges : Option (List (Text × List (Text × Text)))
  pub links : Option Text

-- The semver library: a version that can be read is printed again, a requirement is read or not.
pub record Semver : Type 0 where
  pub parse_version : Text → Option Text
  pub parse_req : Text → Option Text

abbrev pub optional {ℓ} : {A B : Type ℓ} → (A → Result Error B) → Option A → Result Error (Option B)
optional read none = ok none
optional read (some a) = do b ← read a; ok (some b)

unfoldable pub feature_entry : Text × List Text → Result Error (Text × List Text)
unfolding each
feature_entry (name, parts) = do n ← feature_name name; fs ← each feature parts; ok (n, fs)

module _ (u : Unicode) (semver : Semver) where
  unfoldable pub dependency : EncodableCrateDependency → Result Error EncodableCrateDependency
  unfolding each
  dependency dep = do
    name ← crate_name u dep.name
    features ← each feature dep.features
    req ← version_req semver.parse_req dep.version_req
    explicit ← optional (dependency_name u) dep.explicit_name_in_toml
    ok (record dep {
      name = name;
      features = features;
      version_req = req;
      explicit_name_in_toml = explicit;
    })

  -- `Deserialize for EncodableCrateUpload`, on the fields as they stand in the JSON.
  unfoldable pub deserialize : EncodableCrateUpload → Result Error EncodableCrateUpload
  unfolding each
  deserialize raw = do
    name ← crate_name u raw.name
    vers ← version semver.parse_version raw.vers
    deps ← each dependency raw.deps
    features ← each feature_entry raw.features
    keywords ← keyword_list u raw.keywords
    categories ← category_list raw.categories
    ok (record raw {
      name = name;
      vers = vers;
      deps = deps;
      features = features;
      keywords = keywords;
      categories = categories;
    })
