-- ===== src/Middleware/Paths.antt =====
-- src/middleware/normalize_path.rs: a path without the parts that do not count.
use cargo_website.Base.{Bool, true, false, ◌||◌, List, [], ◌∷◌, ◌++◌, if◌then◌else◌}
use cargo_website.Base.Text.{Text, codes, contains}
use cargo_website.Base.Paths.{Component, root_dir, cur_dir, parent_dir, normal, components}

-- A `PathBuf` without `.` and `..`: whether it starts at the root, and its parts.
pub record PathBuf : Type 0 where
  pub rooted : Bool
  pub parts : List Text

-- `pop` at the root, or on no parts, changes nothing.
unfoldable pub pop : List Text → List Text
pop [] = []
pop (_ ∷ []) = []
pop (p ∷ q ∷ ps) = p ∷ pop (q ∷ ps)

-- One step of the fold. To push the root is to start anew.
unfoldable pub push : PathBuf → Component → PathBuf
push result (normal x) = record result { parts = result.parts ++ x ∷ [] }
push result parent_dir = record result { parts = pop result.parts }
push result root_dir = record { rooted = true; parts = [] }
push result cur_dir = result

unfoldable pub fold : PathBuf → List Component → PathBuf
fold result [] = result
fold result (c ∷ cs) = fold (push result c) cs

-- The parts with a slash between them.
unfoldable pub join_parts : List Text → Text
join_parts [] = []
join_parts (p ∷ []) = p
join_parts (p ∷ q ∷ ps) = p ++ b'/' ∷ join_parts (q ∷ ps)

unfoldable pub to_text : PathBuf → Text
to_text path = if path.rooted then b'/' ∷ join_parts path.parts else join_parts path.parts

unfoldable pub normalized : Text → PathBuf
normalized path = fold (record { rooted = false; parts = [] }) (components path)

unfoldable pub normalize_path : Text → Text
normalize_path path =
    if contains path (codes "//") || contains path (codes "/.")
    then to_text (normalized path)
    else path
