-- ===== src/Search/Tests.antt =====
-- Three crates, two on a page, and a search that cannot be walked by seek.
use cargo_website.Base.{
  ℕ, ◌≡◌, refl, Bool, true, false, List, [], ◌∷◌, Option, none, some, ok, All, ltb,
}
use cargo_website.Base.Text.{Text, codes, text_eq}
use cargo_website.Base.Decimal.{parse_u32, parse_digits}
use cargo_website.Pagination.{PageLimits, Request, gather_per_page}
use cargo_website.Search.{
  SearchParams, Client, Crate, Server, matches, exact_match, relevance, updated_at, name, with_one,
  sorted, query_of,
}
use cargo_website.Search.Planned.{plain}
use cargo_website.Search.Walked.{walk, IsAscending, HasKey, walk-all}

abbrev crate : ℕ → Crate
crate id = record { id = id; name = id ∷ [] }

abbrev crates : List Crate
crates = crate 3 ∷ crate 5 ∷ crate 8 ∷ []

abbrev decode : Text → Option ℕ
decode (id ∷ []) = some id
decode _ = none

abbrev first_after : Text → Text → Bool
first_after (a ∷ _) (b ∷ _) = ltb b a
first_after _ _ = false

abbrev server : Server
server = record {
  crates = crates;
  run = λ _. crates;
  after = first_after;
  encode_seek = λ id. id ∷ [];
  decode_seek = decode;
}

abbrev limits : PageLimits
limits = record { max_allowed_page_offset = 100; page_offset_ua_blocklist = [] }

abbrev anyone : Client
anyone = record { lower_char = λ c. c ∷ []; lower_words = λ t. t ∷ []; user = none }

abbrev no_params : SearchParams
no_params = record {
  q = none;
  sort = none;
  include_yanked = none;
  category = none;
  all_keywords = none;
  keyword = none;
  letter = none;
  user_id = none;
  team_id = none;
  following = none;
  ids = none;
}

abbrev two_rows : Request
two_rows = record {
  page_param = none;
  seek_param = none;
  per_page_param = some (codes "2");
  user_agent = codes "cargo";
}

plain_query : query_of anyone no_params ≡ ok plain
unfolding query_of with_one sorted
plain_query = refl

asks_two : gather_per_page (some (codes "2")) ≡ ok 2
unfolding gather_per_page parse_u32 parse_digits
asks_two = refl

-- With `sort=recent-updates` the exact match is not put first.
exact_match_not_first :
    query_of anyone
      (record no_params { q = some (codes "serde"); sort = some (codes "recent-updates") })
    ≡ ok (record {
      filters = matches (codes "serde") ∷ [];
      orders = updated_at ∷ [];
      marks_exact = true;
      supports_seek = false;
    })
unfolding query_of with_one sorted text_eq
exact_match_not_first = refl

relevance_first :
    query_of anyone (record no_params { q = some (codes "serde") })
    ≡ ok (record {
      filters = matches (codes "serde") ∷ [];
      orders = exact_match ∷ relevance ∷ name ∷ [];
      marks_exact = true;
      supports_seek = false;
    })
unfolding query_of with_one sorted text_eq
relevance_first = refl

crates-IsAscending : IsAscending server crates
crates-IsAscending =
    (refl, ((refl, refl), ((refl, refl), tt)), (refl, ((refl, refl), tt), (refl, tt, tt)))

crates-HasKey : All (HasKey server) crates
crates-HasKey = ((refl, refl), ((refl, refl), ((refl, refl), tt)))

walk-all_example : walk 4 server limits anyone no_params two_rows ≡ some crates
walk-all_example =
    walk-all server limits anyone no_params two_rows plain 1 plain_query refl refl refl asks_two
      crates-HasKey crates-IsAscending
