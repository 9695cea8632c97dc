-- ===== src/Middleware/Normalized.antt =====
-- What a normalised path is made of.
use mathlib.Core.List.{append_assoc, append-nil}
use cargo_website.Base.{
  ℕ, ◌≡◌, ◌≢◌, refl, sym, ap, subst, ◌∙◌, arith, Bool, true, false, ◌||◌, List, [], ◌∷◌, ◌++◌, map,
  ◌==◌, All, All-append, Bool-cases, inl, inr, if◌then◌else◌,
}
use cargo_website.Base.Text.{Text, codes, text_eq, contains, split}
use cargo_website.Base.Splitting.{split-whole, split-first, split-All}
use cargo_website.Base.Paths.{
  Component, root_dir, cur_dir, parent_dir, normal, part_components, relative, components,
}
use cargo_website.Middleware.Left.{left, fold-left_path}
use cargo_website.Middleware.Paths.{
  PathBuf, pop, push, fold, join_parts, to_text, normalized, normalize_path,
}

-- A part that counts: not empty, not `.`, not `..`, and without a slash.
abbrev pub IsPart : Text → Type 0
IsPart p =
    All (λ c. c ≢ b'/') p
    × (text_eq p [] ≡ false)
    × (text_eq p (codes ".") ≡ false)
    × (text_eq p (codes "..") ≡ false)

abbrev IsGood : Component → Type 0
IsGood root_dir = Unit
IsGood cur_dir = Unit
IsGood parent_dir = Unit
IsGood (normal p) = IsPart p

abbrev NoSlash : Text → Type 0
NoSlash p = All (λ c. c ≢ b'/') p

part_components-IsGood :
    (parts : List Text) → All NoSlash parts → All IsGood (part_components parts)
unfolding part_components
part_components-IsGood [] h = tt
part_components-IsGood (p ∷ ps) h = elim (Bool-cases (text_eq p [])) [
  | inl e ↦ rw (part_components, e) (part_components-IsGood ps h.1)
  | inr e ↦ elim (Bool-cases (text_eq p (codes "."))) [
    | inl f ↦ rw (part_components, e, f) (part_components-IsGood ps h.1)
    | inr f ↦ elim (Bool-cases (text_eq p (codes ".."))) [
      | inl g ↦ rw (part_components, e, f, g) (tt, part_components-IsGood ps h.1)
      | inr g ↦ rw (part_components, e, f, g) ((h.0, e, f, g), part_components-IsGood ps h.1)
    ]
  ]
]

relative-IsGood : (parts : List Text) → All NoSlash parts → All IsGood (relative parts)
unfolding relative
relative-IsGood [] h = tt
relative-IsGood (p ∷ ps) h = elim (Bool-cases (text_eq p (codes "."))) [
  | inl e ↦ rw (relative, e) (tt, part_components-IsGood ps h.1)
  | inr e ↦ rw (relative, e) (part_components-IsGood (p ∷ ps) h)
]

components-IsGood : (path : Text) → All IsGood (components path)
unfolding components
components-IsGood [] = tt
components-IsGood (c ∷ s) = elim (Bool-cases (c == b'/')) [
  | inl e ↦ rw (components, e) (tt, part_components-IsGood (split b'/' s) (split-All b'/' s))
  | inr e ↦ rw (components, e) (relative-IsGood (split b'/' (c ∷ s)) (split-All b'/' (c ∷ s)))
]

pop-IsPart : (ps : List Text) → All IsPart ps → All IsPart (pop ps)
unfolding pop
pop-IsPart [] h = tt
pop-IsPart (p ∷ []) h = tt
pop-IsPart (p ∷ q ∷ ps) h = (h.0, pop-IsPart (q ∷ ps) h.1)

fold-IsPart :
    (result : PathBuf) (cs : List Component)
    → All IsPart result.parts
    → All IsGood cs
    → All IsPart (fold result cs).parts
unfolding fold push
fold-IsPart result [] h k = h
fold-IsPart result (root_dir ∷ cs) h k =
    fold-IsPart (record { rooted = true; parts = [] }) cs tt k.1
fold-IsPart result (cur_dir ∷ cs) h k = fold-IsPart result cs h k.1
fold-IsPart result (parent_dir ∷ cs) h k =
    fold-IsPart (record result { parts = pop result.parts }) cs (pop-IsPart result.parts h) k.1
fold-IsPart result (normal p ∷ cs) h k =
    fold-IsPart (record result { parts = result.parts ++ p ∷ [] }) cs
      (All-append IsPart result.parts (p ∷ []) h (k.0, tt)) k.1

-- Parts that count are the components of the path that they make up.
part_components-normal : (ps : List Text) → All IsPart ps → part_components ps ≡ map normal ps
unfolding part_components
part_components-normal [] h = refl
part_components-normal (p ∷ ps) h =
    rw (part_components, h.0.1, h.0.2, h.0.3)
      (ap (λ cs. normal p ∷ cs) (part_components-normal ps h.1))

split-join_parts :
    (p : Text) (ps : List Text) → All IsPart (p ∷ ps) → split b'/' (join_parts (p ∷ ps)) ≡ p ∷ ps
unfolding join_parts
split-join_parts p [] h = split-whole b'/' p h.0.0
split-join_parts p (q ∷ ps) h =
    split-first b'/' p (join_parts (q ∷ ps)) h.0.0
    ∙ ap (λ parts. p ∷ parts) (split-join_parts q ps h.1)

relative-normal :
    (p : Text) (ps : List Text) → All IsPart (p ∷ ps) → relative (p ∷ ps) ≡ map normal (p ∷ ps)
unfolding relative
relative-normal p ps h = rw (relative, h.0.2) (part_components-normal (p ∷ ps) h)

components-relative :
    (c : ℕ) (s : Text) → c ≢ b'/' → components (c ∷ s) ≡ relative (split b'/' (c ∷ s))
unfolding components
components-relative c s h =
    let not_slash : (c == b'/') ≡ false = ground arith in rw (components, not_slash) refl

components-rooted :
    (ps : List Text) → All IsPart ps → components (b'/' ∷ join_parts ps) ≡ root_dir ∷ map normal ps
unfolding components join_parts split part_components text_eq
components-rooted [] h = refl
components-rooted (p ∷ ps) h =
    ap (λ parts. root_dir ∷ part_components parts) (split-join_parts p ps h)
    ∙ ap (λ cs. root_dir ∷ cs) (part_components-normal (p ∷ ps) h)

not_empty : text_eq [] [] ≢ false
unfolding text_eq
not_empty h = cc

components-join_parts :
    (ps : List Text) → All IsPart ps → components (join_parts ps) ≡ map normal ps
unfolding components join_parts
components-join_parts [] h = refl
components-join_parts ([] ∷ ps) h = absurd (not_empty h.0.1)
components-join_parts ((c ∷ p) ∷ []) h =
    components-relative c p h.0.0.0
    ∙ ap relative (split-join_parts (c ∷ p) [] h)
    ∙ relative-normal (c ∷ p) [] h
components-join_parts ((c ∷ p) ∷ q ∷ ps) h =
    components-relative c (p ++ b'/' ∷ join_parts (q ∷ ps)) h.0.0.0
    ∙ ap relative (split-join_parts (c ∷ p) (q ∷ ps) h)
    ∙ relative-normal (c ∷ p) (q ∷ ps) h

-- The root, where the path starts there, and the parts.
abbrev pub whole : Bool → List Text → List Component
whole true ps = root_dir ∷ map normal ps
whole false ps = map normal ps

components-to_text :
    (b : PathBuf) → All IsPart b.parts → components (to_text b) ≡ whole b.rooted b.parts
unfolding to_text
components-to_text b h = by_root b.rooted
  where
    by_root :
        (r : Bool)
        → components (if r then b'/' ∷ join_parts b.parts else join_parts b.parts) ≡ whole r b.parts
    by_root true = components-rooted b.parts h
    by_root false = components-join_parts b.parts h

fold-normal :
    (b : PathBuf) (ps : List Text) → fold b (map normal ps) ≡ record b { parts = b.parts ++ ps }
unfolding fold push
fold-normal b [] = ap (λ parts. record b { parts = parts }) (sym (append-nil b.parts))
fold-normal b (p ∷ ps) =
    fold-normal (record b { parts = b.parts ++ p ∷ [] }) ps
    ∙ ap (λ parts. record b { parts = parts }) (append_assoc b.parts (p ∷ []) ps)

fold-whole :
    (r : Bool) (ps : List Text)
    → fold (record { rooted = false; parts = [] }) (whole r ps) ≡ record { rooted = r; parts = ps }
unfolding fold push
fold-whole true ps = fold-normal (record { rooted = true; parts = [] }) ps
fold-whole false ps = fold-normal (record { rooted = false; parts = [] }) ps

normalized-IsPart : (path : Text) → All IsPart (normalized path).parts
unfolding normalized
normalized-IsPart path =
    fold-IsPart (record { rooted = false; parts = [] }) (components path) tt
      (components-IsGood path)

normalized-to_text : (b : PathBuf) → All IsPart b.parts → normalized (to_text b) ≡ b
unfolding normalized
normalized-to_text b h =
    ap (λ cs. fold (record { rooted = false; parts = [] }) cs) (components-to_text b h)
    ∙ fold-whole b.rooted b.parts

abbrev needs_rewriting : Text → Bool
needs_rewriting path = contains path (codes "//") || contains path (codes "/.")

to_text-fixed : (b : PathBuf) → All IsPart b.parts → normalize_path (to_text b) ≡ to_text b
unfolding normalize_path
to_text-fixed b h = elim (Bool-cases (needs_rewriting (to_text b))) [
  | inl e ↦ rw (normalize_path, e) (ap to_text (normalized-to_text b h))
  | inr e ↦ rw (normalize_path, e) refl
]

-- A path that holds `//` or `/.` becomes one whose components are the root, if it has one, and then
-- its parts without each one that a `..` behind it takes back: from the end to the start, each `..`
-- takes the nearest part before it that is not taken yet, and none across the root. None of these
-- parts has a slash, is empty, `.` or `..`; and to normalise the path again changes nothing.
pub normalize_path-normal :
    (path : Text)
    → (contains path (codes "//") || contains path (codes "/.")) ≡ true
    → (components (normalize_path path) ≡ whole (left path).rooted (left path).parts)
      × All IsPart (left path).parts
      × (normalize_path (normalize_path path) ≡ normalize_path path)
unfolding normalize_path normalized
normalize_path-normal path e =
    let b = normalized path in
    let parts = normalized-IsPart path in
    let new : normalize_path path ≡ to_text b = rw (normalize_path, e) refl in
    let is : b ≡ left path = fold-left_path (components path) in
    (
      ap components new
          ∙ components-to_text b parts
          ∙ ap (λ (z : PathBuf). whole z.rooted z.parts) is,
      subst (λ (z : PathBuf). All IsPart z.parts) is parts,
      ap normalize_path new ∙ to_text-fixed b parts ∙ sym new,
    )
