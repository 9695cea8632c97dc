-- ===== src/Publish/Published.antt =====
-- What a published version has gone through.
use cargo_website.Base.{
  ok_injective, ok_or-eq-ok, ℕ, ◌≡◌, sym, ap, ◌∙◌, subst, Bool, false, List, [], ◌∷◌, ◌++◌, map,
  some, ok, ok_or, any, bind-eq-ok,
}
use cargo_website.Base.Distinct.{AreDistinct, AreDistinct-append, any-false}
use cargo_website.Base.Text.{Text}
use cargo_website.Io.{Reader}
use cargo_website.Owners.Tables.{User}
use cargo_website.Auth.Users.{AuthenticatedUser, authenticate}
use cargo_website.Upload.Metadata.{EncodableCrateUpload, EncodableCrateDependency}
use cargo_website.Publish.Tables.{
  Crate, IndexDependency, Database, unauthorized, no_verified_email, map_err,
}
use cargo_website.Publish.Added.{
  versions-update_metadata, versions-insert_rows, new_version-IsAdded, same_version, IsAdded,
}
use cargo_website.Publish.Versions.{is_uploaded, verified_email}
use cargo_website.Publish.Dependencies.{link_all, add_dependencies}
use cargo_website.Publish.Tarballs.{Files, upload_crate}
use cargo_website.Publish.Routes.{
  Config, Outside, Request, State, GoodCrate, parse_new_headers, own_crate, read_length,
  new_version, update_metadata, transaction, publish_crate,
}
use cargo_website.Publish.Allowed.{MayPublish, own_crate-MayPublish, from_map_err}
use cargo_website.Publish.Stored.{IsStored, upload_crate-IsStored}

-- What a success of the transaction has gone through, and what it leaves.
pub record IsPublished (config : Config) (env : Outside) (new : EncodableCrateUpload) (user : User)
    (db : Database) (files : Files) (good : GoodCrate) (db' : Database) (files' : Files)
    : Type 0 where
  pub may_publish : MayPublish env new user db good.krate
  pub exact_name : good.krate.name ≡ new.name
  pub version : IsAdded db good.krate new.vers user.id db'
  pub cksum : List ℕ
  pub tarball : IsStored env.libraries good.krate new.vers files cksum files'

moved :
    (db db1 db2 db3 : Database) (krate : Crate) (vers : Text) (u : ℕ)
    → IsAdded db1 krate vers u db2
    → db1.versions ≡ db.versions
    → db3.versions ≡ db2.versions
    → IsAdded db krate vers u db3
moved db db1 db2 db3 krate vers u a e f = record {
  row = a.row;
  of_crate = a.of_crate;
  has_num = a.has_num;
  by_user = a.by_user;
  was_free = subst (λ vs. any (is_uploaded krate.id vers) vs ≡ false) e a.was_free;
  added = f ∙ a.added ∙ ap (λ vs. vs ++ a.row ∷ []) e;
}

versions-add_dependencies :
    (is_star : Text → Bool) (deps : List EncodableCrateDependency) (v : ℕ) (db : Database)
    (rows : List IndexDependency) (db' : Database)
    → add_dependencies is_star deps v db ≡ ok (rows, db')
    → db'.versions ≡ db.versions
unfolding add_dependencies
versions-add_dependencies is_star deps v db rows db' h =
    let (linked, _, k) = bind-eq-ok (link_all is_star v db.crates deps) _ h in
    ap (λ (p : List IndexDependency × Database). p.1.versions) (sym (ok_injective k))
    ∙ versions-insert_rows (map (λ row. row.1) linked) db

transaction-IsPublished :
    (config : Config) (env : Outside) (new : EncodableCrateUpload) (ids : AuthenticatedUser)
    (email : Text) (req : Request) (body : Reader) (db : Database) (files : Files)
    (good : GoodCrate) (db' : Database) (files' : Files)
    → transaction config env new ids email req body db files ≡ ok (good, db', files')
    → IsPublished config env new ids.user db files good db' files'
unfolding transaction
transaction-IsPublished config env new ids email req body db files good db' files' h =
    let (krate, e1, k1) = bind-eq-ok (own_crate config env new ids.user db) _ h in
    let (sizes, e2, k2) = bind-eq-ok (read_length config env req body krate.0) _ k1 in
    let (version, e3, k3) =
      bind-eq-ok (new_version config env new ids email krate.0 sizes.0.0 krate.1) _ k2 in
    let (linked, e4, k4) =
      bind-eq-ok (add_dependencies env.is_star new.deps version.0.id version.1) _ k3 in
    let (stored, e5, k5) =
      bind-eq-ok (upload_crate env.libraries sizes.0.1 krate.0 sizes.1 new.vers files) _ k4 in
    let (may, named, same_versions) =
      own_crate-MayPublish config env new ids.user db krate.0 krate.1 e1 in
    let updated = update_metadata config env new krate.0.id linked.1 in
    let unchanged : updated.1.versions ≡ version.1.versions =
      versions-update_metadata config env new krate.0.id linked.1
      ∙ versions-add_dependencies env.is_star new.deps version.0.id version.1 linked.0 linked.1
          e4 in
    let added =
      moved db krate.1 version.1 updated.1 krate.0 new.vers ids.user.id
        (new_version-IsAdded config env new ids email krate.0 sizes.0.0 krate.1 version.0 version.1
          e3)
        same_versions unchanged in
    subst
      (λ (p : GoodCrate × Database × Files).
        IsPublished config env new ids.user db files p.0 p.1 p.2)
      (ok_injective k5)
      (record {
        may_publish = may;
        exact_name = named;
        version = record {
          row = added.row;
          of_crate = added.of_crate;
          has_num = added.has_num;
          by_user = added.by_user;
          was_free = added.was_free;
          added = added.added;
        };
        cksum = stored.0;
        tarball =
            upload_crate-IsStored env.libraries sizes.0.1 krate.0 sizes.1 new.vers files stored.0
              stored.1 e5;
      })

-- If a request publishes, then its metadata can be read, its user is authenticated and has a verified
-- email, and he has rights on the crate, or the crate is new; the crate's name is exactly the one of
-- the metadata; the crate did not have the version, and exactly this version is added, with the user
-- as its publisher; and the tarball that is stored, under the path of the crate and the version, has
-- been verified.
pub publish_crate-IsPublished :
    (config : Config) (env : Outside) (req : Request) (state : State) (good : GoodCrate)
    (state' : State)
    → publish_crate config env req state ≡ ok (good, state')
    → (new : EncodableCrateUpload) × (rest : Reader) × (ids : AuthenticatedUser) × (email : Text)
      × (parse_new_headers config env req.body ≡ ok (new, rest))
      × (authenticate env.digest config.read_only env.now config.allowed_origins
            state.db.owning.users req.headers state.tokens
          ≡ ok (ids, state'.tokens))
      × (verified_email ids.user state.db ≡ some email)
      × IsPublished config env new ids.user state.db state.files good state'.db state'.files
unfolding publish_crate
publish_crate-IsPublished config env req state good state' h =
    let (parsed, e1, k1) = bind-eq-ok (parse_new_headers config env req.body) _ h in
    let (found, e2, k2) =
      bind-eq-ok
        (map_err unauthorized (
          authenticate env.digest config.read_only env.now config.allowed_origins
            state.db.owning.users req.headers state.tokens))
        _ k1 in
    let (email, e3, k3) =
      bind-eq-ok (ok_or (verified_email found.0.user state.db) no_verified_email) _ k2 in
    let (done, e4, k4) =
      bind-eq-ok (transaction config env parsed.0 found.0 email req parsed.1 state.db state.files) _
        k3 in
    let same = ok_injective k4 in
    let published =
      transaction-IsPublished config env parsed.0 found.0 email req parsed.1 state.db state.files
        done.0 done.1 done.2 e4 in
    (
      parsed.0,
      parsed.1,
      found.0,
      email,
      e1,
      from_map_err unauthorized _ found e2
          ∙ ap (λ (p : GoodCrate × State). ok (found.0, p.1.tokens)) same,
      ok_or-eq-ok _ no_verified_email email e3,
      subst
          (λ (p : GoodCrate × State).
            IsPublished config env parsed.0 found.0.user state.db state.files p.0 p.1.db p.1.files)
          same published,
    )

-- If no two versions are of the same crate and have the same number, then this still holds behind a
-- request that publishes.
pub publish_crate-AreDistinct :
    (config : Config) (env : Outside) (req : Request) (state : State) (good : GoodCrate)
    (state' : State)
    → AreDistinct same_version state.db.versions
    → publish_crate config env req state ≡ ok (good, state')
    → AreDistinct same_version state'.db.versions
publish_crate-AreDistinct config env req state good state' distinct h =
    let (new, rest, ids, email, _, _, _, published) =
      publish_crate-IsPublished config env req state good state' h in
    let v = published.version in
    subst (AreDistinct same_version) (sym v.added) (
      AreDistinct-append same_version state.db.versions v.row distinct (
        any-false (is_uploaded v.row.crate_id v.row.num) state.db.versions
          (rw (v.of_crate, v.has_num) v.was_free)))
