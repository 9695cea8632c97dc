-- ===== src/Publish/Allowed.antt =====
-- Who may publish a crate.
use cargo_website.Base.{
  ℕ, ◌≡◌, ◌⊎◌, inl, inr, refl, subst, arith, Bool, true, false, not, some, Result, ok, err,
  if◌then◌else◌, any, bind-eq-ok,
}
use cargo_website.Base.Int.{ℤ, pos}
use cargo_website.Base.Text.{Text, text_eq, text_eq_iff}
use cargo_website.Owners.Tables.{User, Rights, owners}
use cargo_website.Owners.Teams.{rights}
use cargo_website.RateLimit.{PublishRateLimit}
use cargo_website.Upload.Metadata.{EncodableCrateUpload}
use cargo_website.Publish.Tables.{
  Crate, Database, Error, missing_rights, previously_named, owners_unknown, map_err,
}
use cargo_website.Publish.Crates.{
  NewCrate, same_name, create_or_update, validate, ensure_name_not_reserved,
}
use cargo_website.Publish.Created.{Saved, is_new, is_old, save_or_update-Saved}
use cargo_website.Publish.Routes.{Config, Outside, new_crate_of, is_nothing, own_crate}

versions-Saved :
    (lower : Text → Text) (self : NewCrate) (uploader : ℕ) (limit : PublishRateLimit) (now : ℤ)
    (db : Database) (r : Crate × Database)
    → Saved lower self uploader limit now db r
    → r.1.versions ≡ db.versions
versions-Saved lower self uploader limit now db _ (is_new limits fresh taken) = refl
versions-Saved lower self uploader limit now db _ (is_old krate found) = refl

-- The owners that are asked for rights are those from before, unless the crate is new.
abbrev pub MayPublish : Outside → EncodableCrateUpload → User → Database → Crate → Type 0
MayPublish env new user db krate =
    (any (λ c. same_name env.lower c.name new.name) db.crates ≡ false)
    ⊎ ((r : Rights) × (rights env.github user (owners krate.id db.owning) ≡ ok r)
        × (is_nothing r ≡ false))

MayPublish-Saved :
    (config : Config) (env : Outside) (new : EncodableCrateUpload) (user : User) (db : Database)
    (saved : Crate × Database) (r : Rights)
    → Saved env.lower (new_crate_of new) user.id config.publish_rate_limit (pos env.now) db saved
    → rights env.github user (owners saved.0.id saved.1.owning) ≡ ok r
    → is_nothing r ≡ false
    → MayPublish env new user db saved.0
MayPublish-Saved config env new user db _ r (is_new limits fresh taken) e f = inl fresh
MayPublish-Saved config env new user db _ r (is_old krate found) e f = inr (r, e, f)

has_rights :
    (b c : Bool) (e f : Error) {x y : Crate × Database}
    → (if b then err e else if c then err f else ok x) ≡ ok y
    → (b ≡ false) × (c ≡ false) × (x ≡ y)
has_rights true c e f h = absurd (cc)
has_rights false true e f h = absurd (cc)
has_rights false false e f h = (refl, refl, ground arith)

pub from_map_err {ℓ} :
    {E : Type 0} {A : Type ℓ} (f : E → Error) (r : Result E A) (a : A)
    → map_err f r ≡ ok a
    → r ≡ ok a
from_map_err f (ok b) a h = ground arith
from_map_err f (err e) a h = cc

pub own_crate-MayPublish :
    (config : Config) (env : Outside) (new : EncodableCrateUpload) (user : User) (db : Database)
    (krate : Crate) (db' : Database)
    → own_crate config env new user db ≡ ok (krate, db')
    → MayPublish env new user db krate × (krate.name ≡ new.name) × (db'.versions ≡ db.versions)
unfolding own_crate create_or_update
own_crate-MayPublish config env new user db krate db' h =
    let (saved, e, k) =
      bind-eq-ok
        (create_or_update env.lower env.parse_url (new_crate_of new) user.id
          (some config.publish_rate_limit) (pos env.now) db)
        _ h in
    let (valid, _, k1) = bind-eq-ok (validate env.parse_url (new_crate_of new)) _ e in
    let (free, _, k2) =
      bind-eq-ok (ensure_name_not_reserved env.lower (new_crate_of new) db) _ k1 in
    let settled =
      save_or_update-Saved env.lower (new_crate_of new) user.id config.publish_rate_limit
        (pos env.now) db saved.0 saved.1 k2 in
    let (r, f, k3) =
      bind-eq-ok
        (map_err owners_unknown (rights env.github user (owners saved.0.id saved.1.owning))) _ k in
    let (some_rights, named, same) =
      has_rights (is_nothing r) (not (text_eq saved.0.name new.name)) missing_rights
        (previously_named saved.0.name) k3 in
    let exact : text_eq saved.0.name new.name ≡ true = ground arith in
    subst
      (λ (p : Crate × Database).
        MayPublish env new user db p.0 × (p.0.name ≡ new.name) × (p.1.versions ≡ db.versions))
      same
      (
        MayPublish-Saved config env new user db saved r settled (from_map_err owners_unknown _ r f)
            some_rights,
        (text_eq_iff saved.0.name new.name).0 exact,
        versions-Saved env.lower (new_crate_of new) user.id config.publish_rate_limit (pos env.now)
            db saved settled,
      )
