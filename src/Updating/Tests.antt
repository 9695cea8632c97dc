-- ===== src/Updating/Tests.antt =====
-- A version of a crate with the downloads of three days, two of which are not counted yet.
use cargo_website.Base.{◌≡◌, not, refl, ap, ℕ, Bool, true, false, [], ◌∷◌, All, arith, ok, err}
use cargo_website.Base.Distinct.{AreDistinct}
use cargo_website.Base.Int.{pos, ◌+ℤ◌}
use cargo_website.Base.Words.{as_i32}
use cargo_website.Updating.{
  Statement, crates, VersionDownload, Database, Conn, query_failed, equal_ℤ, sub_i32, update_found,
  same_id, add_to_version, add_to_crate, add_to_counted, propagate, collect, finish, update,
}
use cargo_website.Updating.Totals.{IsConserved}
use cargo_website.Updating.Conserved.{update-IsConserved}
use cargo_website.Updating.Settled.{HasCounts}
use cargo_website.Updating.Finished.{update-IsDone}
use cargo_website.Updating.Frozen.{IsDone}

abbrev row : ℕ → ℕ → ℕ → Bool → VersionDownload
row day n counted done = record {
  version_id = 3;
  downloads = pos n;
  counted = pos counted;
  date = day;
  processed = done;
}

abbrev before : Database
before = record {
  versions = record { id = 3; crate_id = 7; downloads = pos 14 } ∷ [];
  crates = record { id = 7; downloads = pos 20 } ∷ [];
  total_downloads = pos 100;
  version_downloads = row 8 4 4 true ∷ row 9 12 10 false ∷ row 10 6 0 false ∷ [];
}

abbrev answers : Conn
answers = record { load = true; execute = λ _ _. true; freeze = true; refresh = true }

-- The server that does not change the crates for the third row.
abbrev is_refused : VersionDownload → Statement → Bool
is_refused d crates = not (equal_ℤ d.counted (pos 0))
is_refused d _ = true

abbrev refuses : Conn
refuses = record { load = true; execute = is_refused; freeze = true; refresh = true }

update-answers : update answers 10 before ≡ (
  ok tt,
  record {
    versions = record { id = 3; crate_id = 7; downloads = pos 22 } ∷ [];
    crates = record { id = 7; downloads = pos 28 } ∷ [];
    total_downloads = pos 108;
    version_downloads = row 8 4 4 true ∷ row 9 12 12 true ∷ row 10 6 6 false ∷ [];
  },
)
unfolding update collect finish propagate sub_i32 as_i32 update_found add_to_version add_to_crate
    add_to_counted ◌+ℤ◌
update-answers = refl

update-refuses : update refuses 10 before ≡ (
  err query_failed,
  record {
    versions = record { id = 3; crate_id = 7; downloads = pos 16 } ∷ [];
    crates = record { id = 7; downloads = pos 22 } ∷ [];
    total_downloads = pos 102;
    version_downloads = row 8 4 4 true ∷ row 9 12 12 false ∷ row 10 6 0 false ∷ [];
  },
)
unfolding update collect finish propagate sub_i32 as_i32 update_found add_to_version add_to_crate
    add_to_counted ◌+ℤ◌
update-refuses = refl

update-IsConserved_example : IsConserved before (update refuses 10 before).1
update-IsConserved_example = update-IsConserved refuses 10 before (refl, tt)

before-AreDistinct : AreDistinct same_id before.version_downloads
before-AreDistinct = ((refl, (refl, tt)), ((refl, tt), (tt, tt)))

before-HasCounts : All HasCounts before.version_downloads
before-HasCounts = (
  ((4, refl, omega arith), (4, refl, omega arith)),
  (
    ((12, refl, omega arith), (10, refl, omega arith)),
    (((6, refl, omega arith), (0, refl, omega arith)), tt),
  ),
)

update-IsDone_example :
    All (IsDone 10 before.version_downloads) (update answers 10 before).1.version_downloads
update-IsDone_example =
    update-IsDone answers 10 before before-AreDistinct before-HasCounts
      (ap (λ r. r.0) update-answers)
