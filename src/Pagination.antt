-- ===== src/Pagination.antt =====
-- src/controllers/helpers/pagination.rs: the page that a request asks for, the window of rows that it
-- stands for, and the links to the pages around it.
--
-- A `u32` is a number below 2^32; its arithmetic wraps, as in a release build.
pub mod Gather
pub mod Walk
mod Tests
use cargo_website.Base.{
  ℕ, suc, ◌+◌, ◌-◌, ◌*◌, ◌%◌, Bool, true, false, ◌&&◌, List, [], ◌∷◌, ◌++◌, map, Option, none, some,
  Result, ok, err, ◌>>=◌, ltb, ◌==◌, if◌then◌else◌, any, length,
}
use cargo_website.Base.Text.{Text, codes, text_eq, contains}
use cargo_website.Base.Decimal.{parse_u32, to_string}
use cargo_website.Base.Words.{u32_mod}

abbrev pub max_page_before_suspected_bot : ℕ
max_page_before_suspected_bot = 10

abbrev pub default_per_page : ℕ
default_per_page = 10

abbrev pub max_per_page : ℕ
max_per_page = 100

pub data Page : Type 0 where
  numeric : ℕ → Page
  seek : Text → Page
  unspecified : Page

pub record PaginationOptions : Type 0 where
  pub page : Page
  pub per_page : ℕ

unfoldable pub offset : PaginationOptions → Option ℕ
offset self = elim self.page [
  | numeric p ↦ some ((p + u32_mod - 1) % u32_mod * self.per_page % u32_mod)
  | seek _ ↦ none
  | unspecified ↦ none
]

-- The part of the application's configuration that limits pages.
pub record PageLimits : Type 0 where
  pub max_allowed_page_offset : ℕ
  pub page_offset_ua_blocklist : List Text

pub record PaginationOptionsBuilder : Type 0 where
  pub limits : Option PageLimits
  pub seek_enabled : Bool

abbrev pub builder : PaginationOptionsBuilder
builder = record { limits = none; seek_enabled = false }

abbrev pub limit_page_numbers : PaginationOptionsBuilder → PageLimits → PaginationOptionsBuilder
limit_page_numbers self app = record self { limits = some app }

abbrev pub enable_seek : PaginationOptionsBuilder → Bool → PaginationOptionsBuilder
enable_seek self enable = record self { seek_enabled = enable }

-- The query string's parameters, and the `User-Agent` header.
pub record Request : Type 0 where
  pub page_param : Option Text
  pub seek_param : Option Text
  pub per_page_param : Option Text
  pub user_agent : Text

pub data Error : Type 0 where
  both_page_and_seek page_zero offset_too_large seek_unsupported too_many_items : Error
  invalid_number : Text → Error

-- What is added to the log line of the request.
pub data Metadata : Type 0 where
  suspected_bot large_page_offset : Metadata

abbrev parse_number : Text → Result Error ℕ
parse_number s = elim (parse_u32 s) [ none ↦ err (invalid_number s) | some n ↦ ok n ]

-- A known violator of the crawler policy asks for a large page.
unfoldable pub is_blocked : Option PageLimits → Text → ℕ → Bool
unfolding contains
is_blocked none user_agent numeric_page = false
is_blocked (some config) user_agent numeric_page =
    ltb config.max_allowed_page_offset numeric_page
    && any (λ blocked. contains user_agent blocked) config.page_offset_ua_blocklist

abbrev pub bot_metadata : ℕ → List Metadata
bot_metadata n = if ltb max_page_before_suspected_bot n then suspected_bot ∷ [] else []

abbrev numeric_page : PaginationOptionsBuilder → Text → ℕ → List Metadata × Result Error Page
numeric_page self user_agent n =
    if ltb n 1
    then ([], err page_zero)
    else if is_blocked self.limits user_agent n
    then (bot_metadata n ++ large_page_offset ∷ [], err offset_too_large)
    else (bot_metadata n, ok (numeric n))

abbrev parsed_page :
    PaginationOptionsBuilder → Text → Result Error ℕ → List Metadata × Result Error Page
parsed_page self user_agent (ok n) = numeric_page self user_agent n
parsed_page self user_agent (err e) = ([], err e)

-- The first half of `gather`: the page.
unfoldable pub gather_page :
    PaginationOptionsBuilder
    → Request
    → Option Text
    → Option Text
    → List Metadata × Result Error Page
gather_page self req (some s) (some _) = ([], err both_page_and_seek)
gather_page self req (some s) none = parsed_page self req.user_agent (parse_number s)
gather_page self req none (some s) =
    if self.seek_enabled then ([], ok (seek s)) else ([], err seek_unsupported)
gather_page self req none none = ([], ok unspecified)

-- The second half: the number of rows on a page.
unfoldable pub gather_per_page : Option Text → Result Error ℕ
gather_per_page param = do
  per_page ← elim param [ none ↦ ok default_per_page | some s ↦ parse_number s ]
  if ltb max_per_page per_page then err too_many_items else ok per_page

unfoldable pub gather :
    PaginationOptionsBuilder → Request → List Metadata × Result Error PaginationOptions
gather self req =
    let (metadata, page) = gather_page self req req.page_param req.seek_param in
    (
      metadata,
      do
        p ← page
        per_page ← gather_per_page req.per_page_param
        ok (record { page = p; per_page = per_page }),
    )

-- A page of rows, each with the total number of rows of the query.
pub record Paginated {ℓ} (A : Type ℓ) : Type ℓ where
  pub records_and_total : List (A × ℕ)
  pub options : PaginationOptions

abbrev pub Params : Type 0
Params = List (Text × Text)

-- `query_with_params` of src/controllers.rs: the query of the request, in which each of the new
-- parameters replaces the one of its name.
abbrev pub with_param : Request → Text × Text → Request
with_param req (name, value) =
    if text_eq name (codes "page")
    then record req { page_param = some value }
    else if text_eq name (codes "seek")
    then record req { seek_param = some value }
    else if text_eq name (codes "per_page")
    then record req { per_page_param = some value }
    else req

unfoldable pub query_with_params : Request → Params → Request
unfolding text_eq
query_with_params req [] = req
query_with_params req (param ∷ params) = query_with_params (with_param req param) params

abbrev pub next_of_page : Page → Option Params
next_of_page (numeric n) = some ((codes "page", to_string ((n + 1) % u32_mod)) ∷ [])
next_of_page unspecified = some ((codes "page", to_string 2) ∷ [])
next_of_page (seek _) = none

abbrev pub prev_of_page : Page → Option Params
prev_of_page (numeric n) =
    if n == 1 then none else some ((codes "page", to_string ((n + u32_mod - 1) % u32_mod)) ∷ [])
prev_of_page unspecified = none
prev_of_page (seek _) = none

module _ {ℓ} {A : Type ℓ} where
  unfoldable pub total : Paginated A → ℕ
  total self = elim self.records_and_total [ [] ↦ 0 | row ∷ _ ↦ row.1 ]

  unfoldable pub next_page_params : Paginated A → Option Params
  next_page_params self =
      if ltb (length self.records_and_total) self.options.per_page
      then none
      else next_of_page self.options.page

  unfoldable pub prev_page_params : Paginated A → Option Params
  prev_page_params self = prev_of_page self.options.page

  unfoldable pub records : Paginated A → List A
  records self = map (λ row. row.0) self.records_and_total
