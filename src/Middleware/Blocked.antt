-- ===== src/Middleware/Blocked.antt =====
-- src/middleware/block_traffic.rs and src/middleware/require_user_agent.rs: requests that are refused
-- for what their headers say.
use cargo_website.Base.{Bool, not, ◌&&◌, List, [], Option, none, some, any, map, if◌then◌else◌}
use cargo_website.Base.Text.{Text, codes, text_eq}
use cargo_website.Middleware.Capacity.{ends_with}

-- A value that is no visible ASCII text is none.
abbrev pub unwrap_or_default : Option Text → Text
unwrap_or_default none = []
unwrap_or_default (some s) = s

pub data Answer : Type 0 where
  passed_on forbidden : Answer

pub record BlockTraffic : Type 0 where
  pub header_name : Text
  pub blocked_values : List Text

-- `values_of` gives the values of a header of the request.
unfoldable pub block_traffic : BlockTraffic → (Text → List (Option Text)) → Answer
block_traffic self values_of =
    if any (λ value. any (λ v. text_eq v value) self.blocked_values)
      (map unwrap_or_default (values_of self.header_name))
    then forbidden
    else passed_on

unfoldable pub has_user_agent : Text → Text → Bool
has_user_agent cdn_user_agent agent = not (text_eq agent []) && not (text_eq agent cdn_user_agent)

unfoldable pub require_user_agent : (cdn_user_agent agent path : Text) → Answer
require_user_agent cdn_user_agent agent path =
    if not (has_user_agent cdn_user_agent agent) && not (ends_with path (codes "download"))
    then forbidden
    else passed_on
