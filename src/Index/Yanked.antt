-- ===== src/Index/Yanked.antt =====
-- What a yank leaves of the index and of the versions' rows, whatever the servers answer.
use cargo_website.Base.{
  ◌≡◌, ◌⊎◌, refl, ap, ◌∙◌, arith, Bool, true, false, not, List, some, Result, ok, err, Bool-cases,
  Option-cases, Result-cases, inl, inr,
}
use cargo_website.Base.Text.{Text}
use cargo_website.Publish.Tables.{Version}
use cargo_website.Index.Files.{
  Path_, Files, write, Repository, Error, panicked, missing_file, missing_version, failed_push,
  failed_update, failed_fetch, relative_index_file, Answer, done, refused, lost, commit_and_push,
}
use cargo_website.Index.Jobs.{
  Codec, Git, yanked_in_db, set_yanked, update_row, yank_text, yank_file, yank_locked, yank,
  same_flag,
}

same_flag-true : (a b : Bool) → same_flag a b ≡ true → a ≡ b
same_flag-true a b h = ground arith

same_flag-false : (a b : Bool) → same_flag a b ≡ false → a ≡ not b
same_flag-false a b h = ground arith

module _ (codec : Codec) (krate : Text) (version : Version) (yanked : Bool) (head : Files)
    (versions : List Version) where
  -- The new remote: the file of the crate, in which the lines of the version are marked, of a version
  -- whose row says otherwise.
  pub record IsMarked (files : Files) : Type 0 where
    dst : Path_
    prev : Text
    new : Text
    is_place : relative_index_file codec.to_lowercase krate ≡ some dst
    was : head dst ≡ some prev
    marks : yank_text codec krate version.num yanked prev ≡ ok new
    said : yanked_in_db version.id versions ≡ some (not yanked)
    is_written : files ≡ write dst new head

  -- Nothing changes; or the index does; or it does, and the row too.
  pub data IndexFirst : Result Error (Unit {0}) × Repository × List Version → Type 0 where
    unchanged :
        (res : Result Error (Unit {0})) (repo : Repository)
        → repo.head ≡ head
        → ((e : Error) × (res ≡ err e)) ⊎ (yanked_in_db version.id versions ≡ some yanked)
        → IndexFirst (res, repo, versions)
    index_only :
        (e : Error) (repo : Repository) → IsMarked repo.head → IndexFirst (err e, repo, versions)
    both :
        (res : Result Error (Unit {0})) (repo : Repository)
        → IsMarked repo.head
        → IndexFirst (res, repo, set_yanked version.id yanked versions)

  update_row-IndexFirst :
      (saves : Answer) (repo : Repository)
      → IsMarked repo.head
      → IndexFirst (update_row saves version yanked versions (ok tt, repo))
  update_row-IndexFirst done repo m = both (ok tt) repo m
  update_row-IndexFirst refused repo m = index_only failed_update repo m
  update_row-IndexFirst lost repo m = both (err failed_update) repo m

  push-IndexFirst :
      (pushes saves : Answer) (repo : Repository) (dst : Path_) (new : Text)
      → repo.head ≡ head
      → IsMarked (write dst new repo.head)
      → IndexFirst (update_row saves version yanked versions (commit_and_push pushes dst new repo))
  push-IndexFirst done saves repo dst new h m = update_row-IndexFirst saves _ m
  push-IndexFirst refused saves repo dst new h m =
      unchanged (err failed_push) repo h (inl (failed_push, refl))
  push-IndexFirst lost saves repo dst new h m = index_only failed_push _ m

  yank_file-IndexFirst :
      (git : Git) (dst : Path_)
      → relative_index_file codec.to_lowercase krate ≡ some dst
      → yanked_in_db version.id versions ≡ some (not yanked)
      → IndexFirst (
          yank_file codec git krate version yanked dst
            (record { head = head; checkout = head })
            versions)
  unfolding yank_file
  yank_file-IndexFirst git dst place other = elim (Option-cases (head dst)) [
    | inl e ↦ rw (yank_file, e) (unchanged (err missing_file) _ refl (inl (missing_file, refl)))
    | inr (prev, e) ↦ elim (Result-cases (yank_text codec krate version.num yanked prev)) [
      | inr (f, e') ↦ rw (yank_file, e, e') (unchanged (err f) _ refl (inl (f, refl)))
      | inl (new, e') ↦
          rw (yank_file, e, e')
            (push-IndexFirst git.pushes git.saves _ dst new refl (marked prev new e e'))
    ]
  ]
    where
      marked :
          (prev new : Text)
          → head dst ≡ some prev
          → yank_text codec krate version.num yanked prev ≡ ok new
          → IsMarked (write dst new head)
      marked prev new e e' = record {
        dst = dst;
        prev = prev;
        new = new;
        is_place = place;
        was = e;
        marks = e';
        said = other;
        is_written = refl;
      }

  yank_locked-IndexFirst :
      (git : Git)
      → IndexFirst (
          yank_locked codec git krate version yanked
            (record { head = head; checkout = head })
            versions)
  unfolding yank_locked
  yank_locked-IndexFirst git = elim (Option-cases (relative_index_file codec.to_lowercase krate)) [
    | inl e ↦ rw (yank_locked, e) (unchanged (err panicked) _ refl (inl (panicked, refl)))
    | inr (dst, e) ↦ elim (Option-cases (yanked_in_db version.id versions)) [
      | inl e' ↦
          rw (yank_locked, e, e')
            (unchanged (err missing_version) _ refl (inl (missing_version, refl)))
      | inr (already, e') ↦ elim (Bool-cases (same_flag already yanked)) [
        | inl e'' ↦
            rw (yank_locked, e, e', e'')
              (unchanged (ok tt) _ refl (inr (e' ∙ ap some (same_flag-true already yanked e''))))
        | inr e'' ↦
            rw (yank_locked, e, e', e'')
              (yank_file-IndexFirst git dst e (e' ∙ ap some (same_flag-false already yanked e'')))
      ]
    ]
  ]

  -- Whatever git and the database answer, and where an answer is lost too: a yank leaves the remote
  -- index and the versions' rows as they were, with an error or because the row already says so; or it
  -- changes the index only, with an error; or it changes both. So no row is changed without the index.
  -- In the index it is the file of the crate that changes, to the text in which the lines of the
  -- version are marked, and only if the row said otherwise; of the rows it is the one of the version.
  pub yank-IndexFirst :
      (git : Git) (checkout : Files)
      → IndexFirst (
          yank codec git krate version yanked
            (record { head = head; checkout = checkout })
            versions)
  unfolding yank
  yank-IndexFirst git checkout = elim (Bool-cases git.fetches) [
    | inl e ↦ rw (yank, e) (yank_locked-IndexFirst git)
    | inr e ↦ rw (yank, e) (unchanged (err failed_fetch) _ refl (inl (failed_fetch, refl)))
  ]
