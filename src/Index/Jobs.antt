-- ===== src/Index/Jobs.antt =====
-- The jobs `add_crate` and `yank` of src/git.rs.
use cargo_website.Base.{
  ℕ, Bool, true, false, not, ◌||◌, List, [], ◌∷◌, ◌++◌, map, Option, none, some, Result, ok, err,
  ◌>>=◌, ◌==◌, if◌then◌else◌, find,
}
use cargo_website.Base.Text.{Text, codes, text_eq, split}
use cargo_website.Publish.Tables.{IndexCrate, Version}
use cargo_website.Index.Files.{
  Path_, write, Repository, Error, panicked, failed_update, missing_file, missing_version,
  undecodable, Answer, done, refused, lost, relative_index_file, lock_index, commit_and_push,
}

-- serde_json for a line of the index, and the case conversion.
pub record Codec : Type 0 where
  pub encode : IndexCrate → Text
  pub decode : Text → Option IndexCrate
  pub to_lowercase : Text → Text

-- What comes of fetching and of the push while a job runs, and of the update of the row with its
-- commit.
pub record Git : Type 0 where
  pub fetches : Bool
  pub pushes : Answer
  pub saves : Answer

-- `str::lines`: a line feed ends a line, and a carriage return in front of it is dropped.
unfoldable pub strip_cr : Text → Text
strip_cr [] = []
strip_cr (c ∷ []) = if c == b'\r' then [] else c ∷ []
strip_cr (c ∷ d ∷ s) = c ∷ strip_cr (d ∷ s)

unfoldable pub without_last_empty : List Text → List Text
without_last_empty [] = []
without_last_empty ([] ∷ []) = []
without_last_empty ((c ∷ s) ∷ []) = (c ∷ s) ∷ []
without_last_empty (s ∷ t ∷ ss) = s ∷ without_last_empty (t ∷ ss)

unfoldable pub lines : Text → List Text
lines s = map strip_cr (without_last_empty (split b'\n' s))

-- `join("\n")`.
unfoldable pub join_lines : List Text → Text
join_lines [] = []
join_lines (s ∷ []) = s
join_lines (s ∷ t ∷ ss) = s ++ b'\n' ∷ join_lines (t ∷ ss)

abbrev pub content_or_empty : Option Text → Text
content_or_empty none = []
content_or_empty (some s) = s

abbrev pub mark : Text → Text → Bool → IndexCrate → IndexCrate
mark krate vers yanked c =
    if not (text_eq c.name krate) || not (text_eq c.vers vers)
    then c
    else record c { yanked = some yanked }

-- `find(version.id)` and the update of the row.
abbrev pub yanked_in_db : ℕ → List Version → Option Bool
yanked_in_db id versions = elim (find (λ v. v.id == id) versions) [
  | none ↦ none
  | some v ↦ some v.yanked
]

abbrev pub set_yanked : ℕ → Bool → List Version → List Version
set_yanked id yanked versions =
    map (λ v. if v.id == id then record v { yanked = yanked } else v) versions

-- The row is updated if the push went through.
abbrev pub save_row :
    Answer → Version → Bool → List Version → Result Error (Unit {0}) × List Version
save_row done version yanked versions = (ok tt, set_yanked version.id yanked versions)
save_row refused version yanked versions = (err failed_update, versions)
save_row lost version yanked versions = (err failed_update, set_yanked version.id yanked versions)

abbrev pub update_row :
    Answer
    → Version
    → Bool
    → List Version
    → Result Error (Unit {0}) × Repository
    → Result Error (Unit {0}) × Repository × List Version
update_row saves version yanked versions (err e, repo) = (err e, repo, versions)
update_row saves version yanked versions (ok _, repo) =
    let saved = save_row saves version yanked versions in (saved.0, repo, saved.1)

abbrev pub same_flag : Bool → Bool → Bool
same_flag true b = b
same_flag false b = not b

module _ (codec : Codec) where
  unfoldable pub add_line : IndexCrate → Text → Text
  add_line krate content = content ++ codec.encode krate ++ codes "\n"

  unfoldable pub append_crate : Git → IndexCrate → Repository → Result Error (Unit {0}) × Repository
  append_crate git krate repo = elim (relative_index_file codec.to_lowercase krate.name) [
    | none ↦ (err panicked, repo)
    | some dst ↦
        let content = add_line krate (content_or_empty (repo.checkout dst)) in
        commit_and_push git.pushes dst content
          (record repo { checkout = write dst content repo.checkout })
  ]

  unfoldable pub add_crate : Git → IndexCrate → Repository → Result Error (Unit {0}) × Repository
  add_crate git krate repo = elim (lock_index git.fetches repo) [
    | err e ↦ (err e, repo)
    | ok locked ↦ append_crate git krate locked
  ]

  -- A line of the new file: the line itself, unless it is the one of the version.
  unfoldable pub yank_line : Text → Text → Bool → Text → Result Error Text
  yank_line krate num yanked line = elim (codec.decode line) [
    | none ↦ err (undecodable line)
    | some git_crate ↦
        if not (text_eq git_crate.name krate) || not (text_eq git_crate.vers num)
        then ok line
        else ok (codec.encode (record git_crate { yanked = some yanked }))
  ]

  unfoldable pub yank_lines : Text → Text → Bool → List Text → Result Error (List Text)
  yank_lines krate num yanked [] = ok []
  yank_lines krate num yanked (line ∷ ls) =
      let rest = yank_lines krate num yanked ls in
      do new ← yank_line krate num yanked line; news ← rest; ok (new ∷ news)

  unfoldable pub yank_text : Text → Text → Bool → Text → Result Error Text
  yank_text krate num yanked prev = do
    new ← yank_lines krate num yanked (lines prev)
    ok (join_lines new ++ codes "\n")

  -- The file is rewritten and pushed, and then the row is updated.
  unfoldable pub yank_file :
      Git
      → Text
      → Version
      → Bool
      → Path_
      → Repository
      → List Version
      → Result Error (Unit {0}) × Repository × List Version
  yank_file git krate version yanked dst repo versions = elim (repo.checkout dst) [
    | none ↦ (err missing_file, repo, versions)
    | some prev ↦ elim (yank_text krate version.num yanked prev) [
      | err e ↦ (err e, repo, versions)
      | ok new ↦ update_row git.saves version yanked versions (
          commit_and_push git.pushes dst new
            (record repo { checkout = write dst new repo.checkout }))
    ]
  ]

  unfoldable pub yank_locked :
      Git
      → Text
      → Version
      → Bool
      → Repository
      → List Version
      → Result Error (Unit {0}) × Repository × List Version
  yank_locked git krate version yanked repo versions =
      elim (relative_index_file codec.to_lowercase krate) [
        | none ↦ (err panicked, repo, versions)
        | some dst ↦ elim (yanked_in_db version.id versions) [
          | none ↦ (err missing_version, repo, versions)
          | some already ↦
              if same_flag already yanked
              then (ok tt, repo, versions)
              else yank_file git krate version yanked dst repo versions
        ]
      ]

  unfoldable pub yank :
      Git
      → Text
      → Version
      → Bool
      → Repository
      → List Version
      → Result Error (Unit {0}) × Repository × List Version
  yank git krate version yanked repo versions = elim (lock_index git.fetches repo) [
    | err e ↦ (err e, repo, versions)
    | ok locked ↦ yank_locked git krate version yanked locked versions
  ]
