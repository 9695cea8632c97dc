-- ===== src/Publish/Added.antt =====
-- What of a publication touches the table of versions: the new row, and nothing else.
use cargo_website.Base.{
  ℕ, ◌≡◌, inl, inr, refl, sym, ap, ◌∙◌, subst, arith, Bool, true, false, List, [], ◌∷◌, ◌++◌, map,
  Option, none, some, ok, err, if◌then◌else◌, any, Bool-cases, bind-eq-ok,
}
use cargo_website.Base.Text.{Text, codes, split, text_eq}
use cargo_website.Auth.Users.{AuthenticatedUser}
use cargo_website.Upload.Metadata.{EncodableCrateUpload}
use cargo_website.Publish.Tables.{Crate, Version, Dependency, Database, Error}
use cargo_website.Publish.Versions.{
  NewVersion, is_uploaded, version_row, save, insert_version_owner_action, verified_email,
  check_license, validate_with, validate_license,
}
use cargo_website.Publish.Versions
use cargo_website.Publish.Dependencies.{insert_rows}
use cargo_website.Publish.Badges
use cargo_website.Publish.Linked.{
  insert_keyword, insert_keywords, update_keywords, update_categories, find_or_create_all,
}
use cargo_website.Publish.Routes.{Config, Outside, new_version, update_metadata, as_i32}

versions-insert_keyword :
    (name : Text) (db : Database) → (insert_keyword name db).versions ≡ db.versions
unfolding insert_keyword
versions-insert_keyword name db =
    elim (Bool-cases (any (λ k. text_eq k.keyword name) db.keywords)) [
      | inl e ↦ rw e refl
      | inr e ↦ rw e refl
    ]

versions-insert_keywords :
    (names : List Text) (db : Database) → (insert_keywords names db).versions ≡ db.versions
unfolding insert_keywords
versions-insert_keywords [] db = refl
versions-insert_keywords (name ∷ names) db =
    versions-insert_keywords names (insert_keyword name db) ∙ versions-insert_keyword name db

pub versions-update_metadata :
    (config : Config) (env : Outside) (new : EncodableCrateUpload) (krate : ℕ) (db : Database)
    → (update_metadata config env new krate db).1.versions ≡ db.versions
unfolding update_metadata update_keywords update_categories find_or_create_all Badges.update_crate
versions-update_metadata config env new krate db =
    versions-insert_keywords (map env.to_lowercase new.keywords) db

pub versions-insert_rows :
    (rows : List (ℕ → Dependency)) (db : Database) → (insert_rows rows db).versions ≡ db.versions
unfolding insert_rows
versions-insert_rows [] db = refl
versions-insert_rows (row ∷ rows) db = versions-insert_rows rows _

abbrev pub same_version : Version → Version → Bool
same_version v w = is_uploaded w.crate_id w.num v

-- A version was added that was not there.
pub record IsAdded (db : Database) (krate : Crate) (vers : Text) (user_id : ℕ) (db' : Database)
    : Type 0 where
  pub row : Version
  pub of_crate : row.crate_id ≡ krate.id
  pub has_num : row.num ≡ vers
  pub by_user : row.published_by ≡ some user_id
  pub was_free : any (is_uploaded krate.id vers) db.versions ≡ false
  pub added : db'.versions ≡ db.versions ++ row ∷ []

is_free :
    (b : Bool) (e : Error) {x y : Version × Database}
    → (if b then err e else ok x) ≡ ok y
    → (b ≡ false) × (x ≡ y)
is_free true e h = absurd (cc)
is_free false e h = (refl, ground arith)

abbrev Same : NewVersion → NewVersion → Type 0
Same self w =
    (w.crate_id ≡ self.crate_id) × (w.num ≡ self.num) × (w.published_by ≡ self.published_by)

validate_with-Same :
    (valid : Text → Bool) (license license_file : Option Text) (self new : NewVersion)
    → validate_with valid license license_file self ≡ ok new
    → Same self new
validate_with-Same valid (some license) license_file self new h =
    let (checked, _, k) = bind-eq-ok (check_license valid (split b'/' license)) _ h in
    let same : self ≡ new = ground arith in subst (Same self) same (refl, refl, refl)
validate_with-Same valid none (some _) self new h =
    let same : record self { license = some (codes "non-standard") } ≡ new = ground arith in
    subst (Same self) same (refl, refl, refl)
validate_with-Same valid none none self new h =
    let same : self ≡ new = ground arith in subst (Same self) same (refl, refl, refl)

pub new_version-IsAdded :
    (config : Config) (env : Outside) (new : EncodableCrateUpload) (ids : AuthenticatedUser)
    (email : Text) (krate : Crate) (file_length : ℕ) (db : Database) (v : Version) (db' : Database)
    → new_version config env new ids email krate file_length db ≡ ok (v, db')
    → IsAdded db krate new.vers ids.user.id db'
unfolding new_version save Versions.new validate_license insert_version_owner_action
new_version-IsAdded config env new ids email krate file_length db v db' h =
    let (unsaved, e, k) =
      bind-eq-ok
        (Versions.new env.valid_license_expr krate.id new.vers new.features new.license
          new.license_file (as_i32 file_length) ids.user.id)
        _ h in
    let (same_crate, same_num, same_user) =
      validate_with-Same env.valid_license_expr new.license new.license_file _ unsaved e in
    let (saved, f, k') = bind-eq-ok (save unsaved email db) _ k in
    let (free, same) = is_free (any (is_uploaded unsaved.crate_id unsaved.num) db.versions) _ f in
    let rows : saved.1.versions ≡ db.versions ++ version_row unsaved db.next_version_id ∷ [] =
      ap (λ (p : Version × Database). p.1.versions) (sym same) in
    let last : saved.1.versions ≡ db'.versions = ground arith in
    record {
      row = version_row unsaved db.next_version_id;
      of_crate = same_crate;
      has_num = same_num;
      by_user = ap some same_user;
      was_free = rw (← same_crate, ← same_num) free;
      added = sym last ∙ rows;
    }
