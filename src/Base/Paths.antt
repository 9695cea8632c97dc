-- ===== src/Base/Paths.antt =====
-- Rust's `Path::components` for texts, as on Unix.
use cargo_website.Base.{Bool, true, false, ◌&&◌, List, [], ◌∷◌, ◌==◌, if◌then◌else◌}
use cargo_website.Base.Text.{Text, codes, text_eq, split}

pub data Component : Type 0 where
  root_dir cur_dir parent_dir : Component
  normal : Text → Component

-- The parts between slashes: empty ones and `.` do not count.
unfoldable pub part_components : List Text → List Component
part_components [] = []
part_components (part ∷ parts) =
    let rest = part_components parts in
    if text_eq part []
    then rest
    else if text_eq part (codes ".")
    then rest
    else if text_eq part (codes "..")
    then parent_dir ∷ rest
    else normal part ∷ rest

-- A `.` at the beginning is kept.
unfoldable pub relative : List Text → List Component
relative [] = []
relative (part ∷ parts) =
    if text_eq part (codes ".")
    then cur_dir ∷ part_components parts
    else part_components (part ∷ parts)

-- A slash at the beginning is the root.
unfoldable pub components : Text → List Component
components [] = []
components (c ∷ s) =
    if c == b'/' then root_dir ∷ part_components (split b'/' s) else relative (split b'/' (c ∷ s))

unfoldable pub component_eq : Component → Component → Bool
component_eq root_dir root_dir = true
component_eq cur_dir cur_dir = true
component_eq parent_dir parent_dir = true
component_eq (normal a) (normal b) = text_eq a b
component_eq _ _ = false

-- `Path::path_starts_with`: whole components.
unfoldable pub path_starts_with : List Component → List Component → Bool
unfolding component_eq
path_starts_with path [] = true
path_starts_with [] (p ∷ prefix) = false
path_starts_with (c ∷ path) (p ∷ prefix) = component_eq c p && path_starts_with path prefix
