-- ===== src/Index/Entries.antt =====
-- What the jobs do to the index, seen as the list of versions that a crate's file holds.
use cargo_website.Base.{
  ℕ, ◌≡◌, refl, sym, ◌∙◌, subst, arith, Bool, true, false, not, List, [], ◌∷◌, ◌++◌, map, some, ok,
  ◌==◌, if◌then◌else◌, find, All, Bool-cases, inl, inr,
}
use cargo_website.Base.Text.{Text, text_eq_refl}
use cargo_website.Publish.Tables.{IndexCrate, Version}
use cargo_website.Index.Files.{Path_, Files, done, path_eq, write, Repository, relative_index_file}
use cargo_website.Index.Jobs.{
  Codec, Git, mark, content_or_empty, yanked_in_db, set_yanked, append_crate, add_crate, yank_text,
  yank_file, yank_locked, yank, same_flag,
}
use cargo_website.Index.Lines.{Reads, text_of, add_line-text_of, yank_text-text_of}

path_eq_refl : (p : Path_) → path_eq p p ≡ true
unfolding path_eq
path_eq_refl [] = refl
path_eq_refl (a ∷ as_) = rw (text_eq_refl a, path_eq_refl as_) refl

same_flag-not : (b : Bool) → same_flag (not b) b ≡ false
same_flag-not b = ground arith

write_there : (p : Path_) (t : Text) (files : Files) → write p t files p ≡ some t
write_there p t files = rw (path_eq_refl p) refl

yank_text-last :
    (codec : Codec) (krate vers : Text) (yanked : Bool) (cs : List IndexCrate) (k : IndexCrate)
    → All (Reads codec) (cs ++ k ∷ [])
    → yank_text codec krate vers yanked (text_of codec (cs ++ k ∷ []))
      ≡ ok (text_of codec (map (mark krate vers yanked) (cs ++ k ∷ [])))
yank_text-last codec krate vers yanked [] k h = yank_text-text_of codec krate vers yanked k [] h
yank_text-last codec krate vers yanked (c ∷ cs) k h =
    yank_text-text_of codec krate vers yanked c (cs ++ k ∷ []) h

yanked_in_db-set_yanked :
    (id : ℕ) (b : Bool) (versions : List Version) (old : Bool)
    → yanked_in_db id versions ≡ some old
    → yanked_in_db id (set_yanked id b versions) ≡ some b
yanked_in_db-set_yanked id b [] old h = cc
yanked_in_db-set_yanked id b (v ∷ vs) old h = elim (Bool-cases (v.id == id)) [
  | inl e ↦
      let row : Version = record v { yanked = b } in
      let marked : row ≡ (if v.id == id then row else v) = rw e refl in
      let step : yanked_in_db id (row ∷ set_yanked id b vs) ≡ some b =
        rw (yanked_in_db, find, e) refl in
      subst (λ (w : Version). yanked_in_db id (w ∷ set_yanked id b vs) ≡ some b) marked step
  | inr e ↦
      let rest : yanked_in_db id (v ∷ vs) ≡ yanked_in_db id vs = rw (yanked_in_db, find, e) refl in
      let kept : v ≡ (if v.id == id then record v { yanked = b } else v) = rw e refl in
      let step : yanked_in_db id (v ∷ set_yanked id b vs) ≡ yanked_in_db id (set_yanked id b vs) =
        rw (yanked_in_db, find, e) refl in
      subst (λ (w : Version). yanked_in_db id (w ∷ set_yanked id b vs) ≡ some b) kept
        (step ∙ yanked_in_db-set_yanked id b vs old (sym rest ∙ h))
]

abbrev online : Git
online = record { fetches = true; pushes = done; saves = done }

module _ (codec : Codec) (k : IndexCrate) (version : Version) (yanked : Bool) (cs : List IndexCrate)
    (dst : Path_) where
  added : (repo : Repository) → Repository
  added repo =
      let t = text_of codec (cs ++ k ∷ []) in
      record { head = write dst t repo.head; checkout = write dst t repo.head }

  add_crate-added :
      (repo : Repository)
      → relative_index_file codec.to_lowercase k.name ≡ some dst
      → content_or_empty (repo.head dst) ≡ text_of codec cs
      → add_crate codec online k repo ≡ (ok tt, added repo)
  unfolding add_crate append_crate added
  add_crate-added repo place before =
      rw (add_crate, append_crate, place, before, add_line-text_of codec k cs) refl

  yanked_repo : Repository → Repository
  yanked_repo repo =
      let t = text_of codec (map (mark k.name version.num yanked) (cs ++ k ∷ [])) in
      record { head = write dst t repo.head; checkout = write dst t repo.head }

  yank-yanked :
      (repo : Repository) (versions : List Version)
      → relative_index_file codec.to_lowercase k.name ≡ some dst
      → yanked_in_db version.id versions ≡ some (not yanked)
      → repo.head dst ≡ some (text_of codec (cs ++ k ∷ []))
      → All (Reads codec) (cs ++ k ∷ [])
      → yank codec online k.name version yanked repo versions
        ≡ (ok tt, yanked_repo repo, set_yanked version.id yanked versions)
  unfolding yank yank_locked yank_file yanked_repo
  yank-yanked repo versions place other before reads =
      rw
        (
          yank,
          yank_locked,
          place,
          other,
          same_flag-not yanked,
          yank_file,
          before,
          yank_text-last codec k.name version.num yanked cs k reads,
        )
        refl

  -- While git can fetch and push and the database saves the row, and where the JSON of each entry, yanked or not, is read as it was
  -- written and has no line end inside: if the file of a crate holds a list of versions, or is missing where that is empty,
  -- then adding a version succeeds and the file holds the list with it at the end; yanking or unyanking
  -- a version of the crate whose row says otherwise succeeds then, and the file holds the same list, in
  -- which exactly the entries of this name and number are marked, and the row says so. No other file
  -- changes.
  pub add_crate-yank :
      (repo : Repository) (versions : List Version)
      → All (Reads codec) (cs ++ k ∷ [])
      → relative_index_file codec.to_lowercase k.name ≡ some dst
      → content_or_empty (repo.head dst) ≡ text_of codec cs
      → yanked_in_db version.id versions ≡ some (not yanked)
      → (repo1 : Repository) × (repo2 : Repository) × (add_crate codec
            (record { fetches = true; pushes = done; saves = done })
            k
            repo
          ≡ (ok tt, repo1))
        × (repo1.head dst ≡ some (text_of codec (cs ++ k ∷ [])))
        × (yank codec
              (record { fetches = true; pushes = done; saves = done })
              k.name
              version
              yanked
              repo1
              versions
            ≡ (ok tt, repo2, set_yanked version.id yanked versions))
        × (repo2.head dst
            ≡ some (text_of codec (map (mark k.name version.num yanked) (cs ++ k ∷ []))))
        × (yanked_in_db version.id (set_yanked version.id yanked versions) ≡ some yanked)
        × ((p : Path_) → path_eq p dst ≡ false → repo2.head p ≡ repo.head p)
  unfolding added yanked_repo
  add_crate-yank repo versions reads place before other =
      let there = write_there dst (text_of codec (cs ++ k ∷ [])) repo.head in
      (
        added repo,
        yanked_repo (added repo),
        add_crate-added repo place before,
        there,
        yank-yanked (added repo) versions place other there reads,
        write_there dst (text_of codec (map (mark k.name version.num yanked) (cs ++ k ∷ [])))
            (added repo).head,
        yanked_in_db-set_yanked version.id yanked versions (not yanked) other,
        λ p e. rw e refl,
      )
