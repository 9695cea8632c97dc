-- ===== src/Middleware/Left.antt =====
-- Which parts of a path are left when each `..` takes one back, read from the end: the counterpart of
-- the fold of src/middleware/normalize_path.rs, which goes from the start and pops.
use mathlib.Core.List.{append_assoc, append-nil}
use cargo_website.Base.{ℕ, zero, suc, ◌≡◌, refl, sym, ap, ◌∙◌, true, false, List, [], ◌∷◌, ◌++◌}
use cargo_website.Base.Paths.{Component, root_dir, cur_dir, parent_dir, normal, components}
use cargo_website.Base.Text.{Text}
use cargo_website.Middleware.Paths.{PathBuf, pop, push, fold}

-- What is left of a list of components: the parts behind the root, or, where there is no root, the
-- parts, and how many of those in front of the list are taken back.
pub data LeftOver : Type 0 where
  behind_root : List Text → LeftOver
  relative : ℕ → List Text → LeftOver

-- One component more, in front. What stands in front of the root does not count.
unfoldable in_front : Component → LeftOver → LeftOver
in_front root_dir (behind_root ps) = behind_root ps
in_front root_dir (relative n ps) = behind_root ps
in_front cur_dir l = l
in_front parent_dir (behind_root ps) = behind_root ps
in_front parent_dir (relative n ps) = relative (suc n) ps
in_front (normal p) (behind_root ps) = behind_root ps
in_front (normal p) (relative zero ps) = relative zero (p ∷ ps)
in_front (normal p) (relative (suc n) ps) = relative n ps

unfoldable pub left_over : List Component → LeftOver
unfolding in_front
left_over [] = relative zero []
left_over (c ∷ cs) = in_front c (left_over cs)

-- What is left of a path.
abbrev pub left_path : LeftOver → PathBuf
left_path (behind_root ps) = record { rooted = true; parts = ps }
left_path (relative n ps) = record { rooted = false; parts = ps }

abbrev pops : ℕ → List Text → List Text
pops zero ps = ps
pops (suc n) ps = pops n (pop ps)

pops-nil : (n : ℕ) → pops n [] ≡ []
unfolding pop
pops-nil zero = refl
pops-nil (suc n) = pops-nil n

pop-last : (ps : List Text) (p : Text) → pop (ps ++ p ∷ []) ≡ ps
unfolding pop
pop-last [] p = refl
pop-last (q ∷ []) p = refl
pop-last (q ∷ r ∷ ps) p = ap (λ qs. q ∷ qs) (pop-last (r ∷ ps) p)

-- A path that goes on with what is left of the rest.
abbrev go_on : PathBuf → LeftOver → PathBuf
go_on b (behind_root ps) = record { rooted = true; parts = ps }
go_on b (relative n ps) = record b { parts = pops n b.parts ++ ps }

go_on-push :
    (b : PathBuf) (c : Component) (l : LeftOver) → go_on (push b c) l ≡ go_on b (in_front c l)
unfolding push in_front
go_on-push b root_dir (behind_root ps) = refl
go_on-push b root_dir (relative n ps) =
    ap (λ qs. record { rooted = true; parts = qs ++ ps }) (pops-nil n)
go_on-push b cur_dir l = refl
go_on-push b parent_dir (behind_root ps) = refl
go_on-push b parent_dir (relative n ps) = refl
go_on-push b (normal p) (behind_root ps) = refl
go_on-push b (normal p) (relative zero ps) =
    ap (λ qs. record b { parts = qs }) (append_assoc b.parts (p ∷ []) ps)
go_on-push b (normal p) (relative (suc n) ps) =
    ap (λ qs. record b { parts = pops n qs ++ ps }) (pop-last b.parts p)

fold-go_on : (b : PathBuf) (cs : List Component) → fold b cs ≡ go_on b (left_over cs)
unfolding fold left_over
fold-go_on b [] = ap (λ qs. record b { parts = qs }) (sym (append-nil b.parts))
fold-go_on b (c ∷ cs) = fold-go_on (push b c) cs ∙ go_on-push b c (left_over cs)

pub fold-left_path :
    (cs : List Component)
    → fold (record { rooted = false; parts = [] }) cs ≡ left_path (left_over cs)
fold-left_path cs = fold-go_on (record { rooted = false; parts = [] }) cs ∙ by_root (left_over cs)
  where
    by_root : (l : LeftOver) → go_on (record { rooted = false; parts = [] }) l ≡ left_path l
    by_root (behind_root ps) = refl
    by_root (relative n ps) = ap (λ qs. record { rooted = false; parts = qs ++ ps }) (pops-nil n)

-- The root and the parts of a path that are left.
abbrev pub left : Text → PathBuf
left path = left_path (left_over (components path))
