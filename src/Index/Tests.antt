-- ===== src/Index/Tests.antt =====
-- A crate with one version, whose lines are short names of its entry.
use cargo_website.Base.{
  ◌≡◌, refl, arith, Bool, true, false, [], ◌∷◌, Option, none, some, ok, if◌then◌else◌,
}
use cargo_website.Base.Text.{Text, codes, text_eq, utf8_len, byte_len}
use cargo_website.Publish.Tables.{IndexCrate, Version}
use cargo_website.Index.Files.{
  done, refused, Path_, Repository, path_eq, slice, split_at, relative_index_file,
}
use cargo_website.Index.Jobs.{Codec, yanked_in_db, set_yanked, add_crate, yank}
use cargo_website.Index.Lines.{Reads}
use cargo_website.Index.Entries.{add_crate-yank}
use cargo_website.Index.Yanked.{IndexFirst, yank-IndexFirst}

abbrev entry : Option Bool → IndexCrate
entry yanked = record {
  name = codes "foo";
  vers = codes "1.0.0";
  deps = [];
  cksum = codes "1f8b08";
  features = [];
  yanked = yanked;
  links = none;
}

abbrev flag : Option Bool → Text
flag none = codes "n"
flag (some true) = codes "t"
flag (some false) = codes "f"

abbrev codec : Codec
codec = record {
  encode = λ c. flag c.yanked;
  decode = λ s.
      if text_eq s (codes "n")
      then some (entry none)
      else if text_eq s (codes "t")
      then some (entry (some true))
      else if text_eq s (codes "f")
      then some (entry (some false))
      else none;
  to_lowercase = λ s. s;
}

path_of_four :
    relative_index_file (λ s. s) (codes "serde")
    ≡ some (codes "se" ∷ codes "rd" ∷ codes "serde" ∷ [])
unfolding relative_index_file byte_len utf8_len slice split_at
path_of_four = refl

place : relative_index_file (λ s. s) (codes "foo") ≡ some (codes "3" ∷ codes "f" ∷ codes "foo" ∷ [])
unfolding relative_index_file byte_len utf8_len slice split_at
place = refl

reads : Reads codec (entry (some false))
unfolding text_eq
reads none = (refl, ((λ e. omega arith, λ e. omega arith), tt))
reads (some true) = (refl, ((λ e. omega arith, λ e. omega arith), tt))
reads (some false) = (refl, ((λ e. omega arith, λ e. omega arith), tt))

abbrev row : Version
row = record {
  id = 1;
  crate_id = 1;
  num = codes "1.0.0";
  features = [];
  yanked = false;
  license = some (codes "MIT");
  crate_size = none;
  published_by = some 1;
}

abbrev empty_index : Repository
empty_index = record { head = λ _. none; checkout = λ _. none }

abbrev dst : Path_
dst = codes "3" ∷ codes "f" ∷ codes "foo" ∷ []

add_crate-yank_example :
    (repo1 : Repository) × (repo2 : Repository) × (add_crate codec
        (record { fetches = true; pushes = done; saves = done })
        (entry (some false))
        empty_index
      ≡ (ok tt, repo1))
    × (repo1.head dst ≡ some (codes "f\n"))
    × (yank codec
          (record { fetches = true; pushes = done; saves = done })
          (codes "foo")
          row
          true
          repo1
          (row ∷ [])
        ≡ (ok tt, repo2, set_yanked 1 true (row ∷ [])))
    × (repo2.head dst ≡ some (codes "t\n"))
    × (yanked_in_db 1 (set_yanked 1 true (row ∷ [])) ≡ some true)
    × ((p : Path_) → path_eq p dst ≡ false → repo2.head p ≡ none)
unfolding text_eq
add_crate-yank_example =
    add_crate-yank codec (entry (some false)) row true [] dst empty_index (row ∷ []) (reads, tt)
      place refl refl

yank-IndexFirst_example :
    IndexFirst codec
      (codes "foo")
      row
      true
      (λ _. some (codes "f\n"))
      (row ∷ [])
      (yank codec
        (record { fetches = true; pushes = done; saves = refused })
        (codes "foo")
        row
        true
        (record { head = λ _. some (codes "f\n"); checkout = λ _. none })
        (row ∷ []))
yank-IndexFirst_example =
    yank-IndexFirst codec (codes "foo") row true (λ _. some (codes "f\n")) (row ∷ [])
      (record { fetches = true; pushes = done; saves = refused }) (λ _. none)
