-- ===== src/Search.antt =====
-- `search` of src/controllers/krate/search.rs, the route that lists crates: the query that its
-- parameters ask for, and the page of the result. The server runs the query, which is a parameter
-- (`Server`), as are the codec of the seek key and the mapping to lower case.
pub mod Planned
pub mod Walked
mod Tests
use cargo_website.Base.{
  ℕ, Bool, true, false, ◌&&◌, not, List, [], ◌∷◌, ◌++◌, map, Option, none, some, Result, ok, err,
  ◌>>=◌, ok_or, if◌then◌else◌, find, filter, take, drop, length, ◌==◌,
}
use cargo_website.Base.Int.{ℤ, pos}
use cargo_website.Base.Text.{Text, codes, text_eq}
use cargo_website.Base.Decimal.{parse_i32}
use cargo_website.Pagination.{
  Page, numeric, seek, unspecified, PaginationOptions, offset, PageLimits, builder,
  limit_page_numbers, enable_seek, Request, gather, Paginated, Params, total, next_page_params,
  prev_page_params, records,
}
use cargo_website.Pagination

pub record SearchParams : Type 0 where
  pub q : Option Text
  pub sort : Option Text
  pub include_yanked : Option Text
  pub category : Option Text
  pub all_keywords : Option Text
  pub keyword : Option Text
  pub letter : Option Text
  pub user_id : Option Text
  pub team_id : Option Text
  pub following : Option Text
  pub ids : Option (List Text)

-- The conditions of the query.
pub data Filter : Type 0 where
  matches in_category with_keyword name_like : Text → Filter
  with_keywords named : List Text → Filter
  owned_by_user owned_by_team : ℤ → Filter
  followed_by : ℕ → Filter
  has_unyanked_version : Filter

-- What it is ordered by, downwards but for the name.
pub data Order : Type 0 where
  exact_match relevance downloads recent_downloads updated_at created_at name : Order

pub record Query : Type 0 where
  pub filters : List Filter
  pub orders : List Order
  pub marks_exact : Bool
  pub supports_seek : Bool

pub data Error : Type 0 where
  empty_letter not_authenticated invalid_seek not_found : Error
  invalid_page : Pagination.Error → Error

-- `char::to_lowercase` of the first character, `str::to_lowercase` of the parts of a text, and the
-- user who makes the request.
pub record Client : Type 0 where
  pub lower_char : ℕ → Text
  pub lower_words : Text → List Text
  pub user : Option ℕ

abbrev pub start : Query
start = record { filters = []; orders = []; marks_exact = false; supports_seek = true }

-- Most conditions rule out the pages by seek.
abbrev pub filtered : Query → Filter → Query
filtered q f = record q { filters = q.filters ++ f ∷ []; supports_seek = false }

abbrev pub is_text : Option Text → Text → Bool
is_text none t = false
is_text (some s) t = text_eq s t

-- `sort` is `relevance` if there is none.
abbrev pub sorts_by_relevance : Option Text → Bool
sorts_by_relevance none = true
sorts_by_relevance (some s) = text_eq s (codes "relevance")

abbrev pub with_text : SearchParams → Query → Query
with_text params query = elim params.q [
  | none ↦ query
  | some [] ↦ record query { supports_seek = false }
  | some (c ∷ cs) ↦
      let found = filtered query (matches (c ∷ cs)) in
      record found {
        marks_exact = true;
        orders =
            if sorts_by_relevance params.sort
            then exact_match ∷ relevance ∷ []
            else exact_match ∷ [];
      }
]

abbrev pub with_category : SearchParams → Query → Query
with_category params query = elim params.category [
  | none ↦ query
  | some cat ↦ filtered query (in_category cat)
]

abbrev pub by_letter : Client → Text → Query → Result Error Query
by_letter client [] query = err empty_letter
by_letter client (c ∷ _) query = ok (filtered query (name_like (client.lower_char c ++ codes "%")))

abbrev pub number : Option Text → Option ℤ
number none = none
number (some s) = parse_i32 s

abbrev pub by_user : Client → Query → Result Error Query
by_user client query = elim client.user [
  | none ↦ err not_authenticated
  | some id ↦ ok (filtered query (followed_by id))
]

-- The last three of the chain of `else if`.
abbrev pub by_following : Client → SearchParams → Query → Result Error Query
by_following client params query = elim params.following [
  | some _ ↦ by_user client query
  | none ↦ elim params.ids [ some ids ↦ ok (filtered query (named ids)) | none ↦ ok query ]
]

abbrev pub by_owner : Client → SearchParams → Query → Result Error Query
by_owner client params query = elim (number params.user_id) [
  | some id ↦ ok (filtered query (owned_by_user id))
  | none ↦ elim (number params.team_id) [
    | some id ↦ ok (filtered query (owned_by_team id))
    | none ↦ by_following client params query
  ]
]

-- One of these conditions at most is added, the first that is asked for.
unfoldable pub with_one : Client → SearchParams → Query → Result Error Query
with_one client params query = elim params.all_keywords [
  | some kws ↦ ok (filtered query (with_keywords (client.lower_words kws)))
  | none ↦ elim params.keyword [
    | some kw ↦ ok (filtered query (with_keyword kw))
    | none ↦ elim params.letter [
      | some letter ↦ by_letter client letter query
      | none ↦ by_owner client params query
    ]
  ]
]

-- Whether yanked crates are listed: yes, if the request does not say.
abbrev pub includes_yanked : Option Text → Bool
includes_yanked none = true
includes_yanked (some s) = text_eq s (codes "yes")

abbrev pub without_yanked : SearchParams → Query → Query
without_yanked params query =
    if includes_yanked params.include_yanked then query else filtered query has_unyanked_version

-- `then_order_by` adds to the order, `order` replaces it.
unfoldable pub sorted : Option Text → Query → Query
sorted sort query =
    if is_text sort (codes "downloads")
    then record query { orders = query.orders ++ downloads ∷ []; supports_seek = false }
    else if is_text sort (codes "recent-downloads")
    then record query { orders = query.orders ++ recent_downloads ∷ []; supports_seek = false }
    else if is_text sort (codes "recent-updates")
    then record query { orders = updated_at ∷ []; supports_seek = false }
    else if is_text sort (codes "new")
    then record query { orders = created_at ∷ []; supports_seek = false }
    else record query { orders = query.orders ++ name ∷ [] }

unfoldable pub query_of : Client → SearchParams → Result Error Query
unfolding with_one sorted
query_of client params = do
  one ← with_one client params (with_category params (with_text params start))
  ok (sorted params.sort (without_yanked params one))

pub record Crate : Type 0 where
  pub id : ℕ
  pub name : Text

-- The server: the crates, the rows of a query in its order, the order of names, and the codec of
-- the seek key.
pub record Server : Type 0 where
  pub crates : List Crate
  pub run : Query → List Crate
  pub after : Text → Text → Bool
  pub encode_seek : ℕ → Text
  pub decode_seek : Text → Option ℕ

pub record Listing : Type 0 where
  pub total : ℕ
  pub next_page : Option Params
  pub prev_page : Option Params
  pub crates : List Crate

-- The name of the crate of the seek key, if there is a key.
unfoldable pub seek_name : Server → Option ℕ → Result Error (Option Text)
seek_name server none = ok none
seek_name server (some id) = elim (find (λ (c : Crate). c.id == id) server.crates) [
  | none ↦ err not_found
  | some c ↦ ok (some c.name)
]

abbrev pub rows_after : Server → Option Text → List Crate → List Crate
rows_after server none rows = rows
rows_after server (some n) rows = filter (λ (c : Crate). server.after c.name n) rows

abbrev pub last : List Crate → Option Crate
last [] = none
last (c ∷ []) = some c
last (_ ∷ d ∷ cs) = last (d ∷ cs)

abbrev pub next_of : Server → Option Crate → Option Params
next_of server none = none
next_of server (some c) = some ((codes "seek", server.encode_seek c.id) ∷ [])

unfoldable pub page_by_seek : Server → Query → ℕ → Option ℕ → Result Error Listing
unfolding seek_name
page_by_seek server query per_page key = do
  from ← seek_name server key
  ok (
      let rows = take per_page (rows_after server from (server.run query)) in
      record {
        total = length server.crates;
        next_page = next_of server (last rows);
        prev_page = none;
        crates = rows;
      })

-- `LIMIT` and `OFFSET`, with the number of all rows at each row.
unfoldable pub page_by_offset : Server → Query → PaginationOptions → Listing
unfolding offset
page_by_offset server query options =
    let rows = server.run query in
    let skipped : List Crate = elim (offset options) [ none ↦ rows | some n ↦ drop n rows ] in
    let data' : Paginated Crate = record {
      records_and_total = map (λ c. (c, length rows)) (take options.per_page skipped);
      options = options;
    } in
    record {
      total = total data';
      next_page = next_page_params data';
      prev_page = prev_page_params data';
      crates = records data';
    }

unfoldable pub page_by_key : Server → Query → PaginationOptions → Option ℕ → Result Error Listing
unfolding page_by_seek page_by_offset
page_by_key server query options key =
    if query.supports_seek
    then page_by_seek server query options.per_page key
    else ok (page_by_offset server query options)

unfoldable pub page_of : Server → Query → PaginationOptions → Result Error Listing
unfolding page_by_key page_by_offset
page_of server query options = elim options.page [
  | numeric _ ↦ ok (page_by_offset server query options)
  | seek s ↦ do
    key ← ok_or (server.decode_seek s) invalid_seek
    page_by_key server query options (some key)
  | unspecified ↦ page_by_key server query options none
]

abbrev pub gathered : Result Pagination.Error PaginationOptions → Result Error PaginationOptions
gathered (ok options) = ok options
gathered (err e) = err (invalid_page e)

unfoldable pub search : Server → PageLimits → Client → SearchParams → Request → Result Error Listing
unfolding query_of page_of
search server limits client params req = do
  query ← query_of client params
  options ←
      gathered (gather (enable_seek (limit_page_numbers builder limits) query.supports_seek) req).1
  page_of server query options
