-- ===== src/Index/Files.antt =====
-- `Repository` of src/git.rs: the place of a crate's file, and what fetching and pushing do.
use cargo_website.Base.{
  ℕ, zero, suc, ◌-◌, Bool, true, false, ◌&&◌, List, [], ◌∷◌, Option, none, some, Result, ok, err,
  ◌==◌, ltb, if◌then◌else◌,
}
use cargo_website.Base.Text.{Text, codes, text_eq, utf8_len, byte_len}

-- A path below the checkout, by its components.
abbrev pub Path_ : Type 0
Path_ = List Text

unfoldable pub path_eq : Path_ → Path_ → Bool
path_eq [] [] = true
path_eq (a ∷ as_) (b ∷ bs) = text_eq a b && path_eq as_ bs
path_eq _ _ = false

abbrev pub Files : Type 0
Files = Path_ → Option Text

abbrev pub write : Path_ → Text → Files → Files
write path content files = λ p. if path_eq p path then some content else files p

pub record Repository : Type 0 where
  pub head : Files
  pub checkout : Files

pub data Error : Type 0 where
  panicked failed_fetch failed_push failed_update missing_file missing_version : Error
  undecodable : Text → Error

-- `&name[..n]` and `&name[n..]`: a panic where no character ends at byte `n`.
unfoldable pub split_at : ℕ → Text → Option (Text × Text)
split_at zero s = some ([], s)
split_at (suc n) [] = none
split_at (suc n) (c ∷ s) =
    let rest = split_at (suc n - utf8_len c) s in
    if ltb (suc n) (utf8_len c)
    then none
    else elim rest [ none ↦ none | some (a, b) ↦ some (c ∷ a, b) ]

unfoldable pub slice : ℕ → ℕ → Text → Option Text
slice from to s = elim (split_at to s) [
  | none ↦ none
  | some (front, _) ↦ elim (split_at from front) [ none ↦ none | some (_, part) ↦ some part ]
]

abbrev pub join {ℓ} : {A : Type ℓ} → Option A → Option (List A) → Option (List A)
join none rest = none
join (some a) none = none
join (some a) (some as_) = some (a ∷ as_)

unfoldable pub relative_index_file : (Text → Text) → Text → Option Path_
unfolding byte_len utf8_len
relative_index_file to_lowercase raw =
    let name = to_lowercase raw in
    if byte_len name == 1
    then some (codes "1" ∷ name ∷ [])
    else if byte_len name == 2
    then some (codes "2" ∷ name ∷ [])
    else if byte_len name == 3
    then join (some (codes "3")) (join (slice 0 1 name) (some (name ∷ [])))
    else join (slice 0 2 name) (join (slice 2 4 name) (some (name ∷ [])))

-- `lock_index` with `reset_head`: the checkout is the remote's state.
abbrev pub lock_index : Bool → Repository → Result Error Repository
lock_index fetches repo =
    if fetches then ok (record repo { checkout = repo.head }) else err failed_fetch

-- What comes of a request to a server: it is done, or refused, or done while its answer is lost, which
-- is an error too.
pub data Answer : Type 0 where
  done refused lost : Answer

-- The file is added, committed and pushed. A commit that cannot be pushed is lost when the index is
-- locked the next time. An error in front of the push leaves the remote as a refused push does.
abbrev pub commit_and_push :
    Answer → Path_ → Text → Repository → Result Error (Unit {0}) × Repository
commit_and_push done path content repo =
    (ok tt, record repo { head = write path content repo.head })
commit_and_push refused path content repo = (err failed_push, repo)
commit_and_push lost path content repo =
    (err failed_push, record repo { head = write path content repo.head })
