-- ===== src/Publish/Created.antt =====
-- What creating or updating a crate leaves of the crates that there are.
use cargo_website.Base.{
  ℕ, suc, ◌≡◌, ◌⊎◌, inl, inr, refl, sym, ap, ◌∙◌, subst, arith, Bool, true, false, [], ◌∷◌, ◌++◌,
  map, none, some, Result, ok, err, if◌then◌else◌, any, find, find-eq-some, Any, Bool-cases,
  Option-cases, bind-eq-ok,
}
use cargo_website.Base.Int.{ℤ}
use cargo_website.Base.Distinct.{AreDistinct, AreDistinct-append, AreDistinct-map, any-false}
use cargo_website.Base.Text.{Text}
use cargo_website.RateLimit
use cargo_website.RateLimit.{PublishRateLimit, check_rate_limit}
use cargo_website.Publish.Tables.{
  Crate, Database, missing_row, reserved_name, rate_limited, map_err,
}
use cargo_website.Publish.Updated.{
  fixed, name-update_existing, map-fixed, others, others-update_existing, uploaded,
  find-update_existing,
}
use cargo_website.Publish.Crates.{
  NewCrate, same_name, validate, ensure_name_not_reserved, new_row, owner_row, save_new_crate,
  update_existing, update_crate, charge, after_insert, save_or_update, create_or_update,
}

abbrev pub same_crate : (Text → Text) → Crate → Crate → Bool
same_crate lower c d = same_name lower c.name d.name

module _ (lower : Text → Text) (self : NewCrate) where
  abbrev created : ℕ → Database → Database
  created user_id db = record db {
    crates = db.crates ++ new_row self db.next_crate_id ∷ [];
    next_crate_id = suc db.next_crate_id;
    owning = record db.owning {
      crate_owners = db.owning.crate_owners ++ owner_row db.next_crate_id user_id ∷ [];
    };
  }

  module _ (uploader : ℕ) (rate_limit : PublishRateLimit) (now : ℤ) (db : Database) where
    -- The two ways to a result.
    pub data Saved : Crate × Database → Type 0 where
      is_new :
          (limits : RateLimit.Tables)
          → any (λ c. same_name lower c.name self.name) db.crates ≡ false
          → check_rate_limit rate_limit uploader now db.limits ≡ ok limits
          → Saved (new_row self db.next_crate_id, record (created uploader db) { limits = limits })
      is_old :
          (krate : Crate)
          → find
              (λ c. same_name lower c.name self.name)
              (map (update_existing lower self) db.crates)
            ≡ some krate
          → Saved (krate, record db { crates = map (update_existing lower self) db.crates })

    charge-Saved :
        (krate : Crate) (db' : Database)
        → any (λ c. same_name lower c.name self.name) db.crates ≡ false
        → charge rate_limit uploader now (new_row self db.next_crate_id) (created uploader db)
          ≡ ok (krate, db')
        → Saved (krate, db')
    charge-Saved krate db' fresh h =
        let (limits, e, k) =
          bind-eq-ok (map_err rate_limited (check_rate_limit rate_limit uploader now db.limits)) _
            h in
        let same : (new_row self db.next_crate_id, record (created uploader db) { limits = limits })
            ≡ (krate, db') =
          ground arith in
        subst Saved same (is_new limits fresh (taken _ limits e))
      where
        taken :
            (r : Result RateLimit.Error RateLimit.Tables) (t : RateLimit.Tables)
            → map_err rate_limited r ≡ ok t
            → r ≡ ok t
        taken (ok t) t' h = ground arith
        taken (err e) t' h = cc

    updated-Saved :
        (krate : Crate) (db' : Database)
        → update_crate lower self db ≡ ok (krate, db')
        → Saved (krate, db')
    unfolding update_crate
    updated-Saved krate db' h =
        elim (Option-cases (
          find (λ c. same_name lower c.name self.name)
            (map (update_existing lower self) db.crates))) [
              | inl e ↦
                  let refusal : update_crate lower self db ≡ err missing_row =
                    rw (update_crate, e) refl in
                  absurd (cc)
              | inr (c, e) ↦
                  let step : update_crate lower self db
                      ≡ ok (c, record db { crates = map (update_existing lower self) db.crates }) =
                    rw (update_crate, e) refl in
                  let same : (c, record db { crates = map (update_existing lower self) db.crates })
                      ≡ (krate, db') =
                    ground arith in
                  subst Saved same (is_old c e)
            ]

    not_inserted :
        any (λ c. same_name lower c.name self.name) db.crates ≡ true
        → save_new_crate lower self uploader db ≡ (none, db)
    unfolding save_new_crate
    not_inserted e = rw (save_new_crate, e) refl

    inserted :
        any (λ c. same_name lower c.name self.name) db.crates ≡ false
        → save_new_crate lower self uploader db
          ≡ (some (new_row self db.next_crate_id), created uploader db)
    unfolding save_new_crate
    inserted e = rw (save_new_crate, e) refl

    pub save_or_update-Saved :
        (krate : Crate) (db' : Database)
        → save_or_update lower self uploader (some rate_limit) now db ≡ ok (krate, db')
        → Saved (krate, db')
    unfolding save_or_update
    save_or_update-Saved krate db' h =
        elim (Bool-cases (any (λ c. same_name lower c.name self.name) db.crates)) [
          | inl e ↦
              let nothing : save_new_crate lower self uploader db ≡ (none, db) = not_inserted e in
              let step : save_or_update lower self uploader (some rate_limit) now db
                  ≡ update_crate lower self db =
                ap (after_insert lower self uploader (some rate_limit) now) nothing in
              updated-Saved krate db' (sym step ∙ h)
          | inr e ↦
              let row : save_new_crate lower self uploader db
                  ≡ (some (new_row self db.next_crate_id), created uploader db) =
                inserted e in
              let step : save_or_update lower self uploader (some rate_limit) now db
                  ≡ charge rate_limit uploader now (new_row self db.next_crate_id)
                      (created uploader db) =
                ap (after_insert lower self uploader (some rate_limit) now) row in
              charge-Saved krate db' e (sym step ∙ h)
        ]

-- What holds of a result: the crate is new, belongs to the uploader and has cost a token, or it was
-- there under a name that counts as the same and gets what the upload sets, and no other crate, no
-- owner, bucket, name or maximal size changes.
abbrev pub WasCreated :
    (Text → Text) → NewCrate → ℕ → PublishRateLimit → ℤ → Database → Crate → Database → Type 0
WasCreated lower self uploader rate_limit now db krate db' =
    (any (λ c. same_name lower c.name self.name) db.crates ≡ false)
    × (krate.name ≡ self.name)
    × (db'.crates ≡ db.crates ++ krate ∷ [])
    × (db'.owning.crate_owners ≡ db.owning.crate_owners ++ owner_row krate.id uploader ∷ [])
    × (check_rate_limit rate_limit uploader now db.limits ≡ ok db'.limits)

abbrev pub WasUpdated : (Text → Text) → NewCrate → Database → Crate → Database → Type 0
WasUpdated lower self db krate db' =
    (same_name lower krate.name self.name ≡ true)
    × ((old : Crate) × Any (λ c. c ≡ old) db.crates
        × Any (λ c. c ≡ krate) db'.crates
        × (krate ≡ uploaded lower self old))
    × (others lower self db'.crates ≡ others lower self db.crates)
    × (map fixed db'.crates ≡ map fixed db.crates)
    × (db'.owning ≡ db.owning)
    × (db'.limits ≡ db.limits)

module _ (lower : Text → Text) (self : NewCrate) (uploader : ℕ) (rate_limit : PublishRateLimit)
    (now : ℤ) (db : Database) where
  Saved-outcome :
      (r : Crate × Database)
      → Saved lower self uploader rate_limit now db r
      → AreDistinct (same_crate lower) db.crates
      → AreDistinct (same_crate lower) r.1.crates
        × (WasCreated lower self uploader rate_limit now db r.0 r.1
            ⊎ WasUpdated lower self db r.0 r.1)
  Saved-outcome _ (is_new limits fresh taken) h = (
    AreDistinct-append (same_crate lower) db.crates (new_row self db.next_crate_id) h
        (any-false (λ c. same_name lower c.name self.name) db.crates fresh),
    inl (fresh, refl, refl, refl, taken),
  )
  Saved-outcome _ (is_old krate found) h = (
    AreDistinct-map (same_crate lower) (update_existing lower self)
        (λ c d. rw (name-update_existing lower self c, name-update_existing lower self d) refl)
        db.crates h,
    inr (
      find-eq-some (λ c. same_name lower c.name self.name)
          (map (update_existing lower self) db.crates) krate found,
      find-update_existing lower self db.crates krate found,
      others-update_existing lower self db.crates,
      map-fixed lower self db.crates,
      refl,
      refl,
    ),
  )

-- If no two crates have names that count as the same, and a crate is created or updated, then this
-- still holds and the name is not reserved; and either the crate is new, is the one added row, with
-- the uploader's row as its owner's, and has cost a token of the uploader's bucket, or it was there
-- under a name that counts as the same, its row is the one from before with the description, the
-- URLs and the readme of the upload, crates of other names stay as they were, and so do all ids,
-- names, maximal sizes, owners and buckets.
pub create_or_update-outcome :
    (lower : Text → Text) (parses : Text → Bool) (self : NewCrate) (uploader : ℕ)
    (rate_limit : PublishRateLimit) (now : ℤ) (db : Database) (krate : Crate) (db' : Database)
    → AreDistinct (same_crate lower) db.crates
    → create_or_update lower parses self uploader (some rate_limit) now db ≡ ok (krate, db')
    → (any (λ name. same_name lower name self.name) db.reserved_crate_names ≡ false)
      × AreDistinct (same_crate lower) db'.crates
      × (WasCreated lower self uploader rate_limit now db krate db'
          ⊎ WasUpdated lower self db krate db')
unfolding create_or_update ensure_name_not_reserved
create_or_update-outcome lower parses self uploader rate_limit now db krate db' distinct h =
    let (valid, e, k) = bind-eq-ok (validate parses self) _ h in
    let (free, e', k') = bind-eq-ok (ensure_name_not_reserved lower self db) _ k in
    let (kept, outcome) =
      Saved-outcome lower self uploader rate_limit now db (krate, db')
        (save_or_update-Saved lower self uploader rate_limit now db krate db' k') distinct in
    (not_reserved _ e', kept, outcome)
  where
    not_reserved :
        (b : Bool) {f : Bool} → (if b then err reserved_name else ok true) ≡ ok f → b ≡ false
    not_reserved true h = absurd (cc)
    not_reserved false h = refl
