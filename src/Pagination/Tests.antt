-- ===== src/Pagination/Tests.antt =====
-- A request for the second page of two rows, which is full.
use cargo_website.Base.{ℕ, ◌≡◌, ◌↔◌, ◌<◌, refl, [], ◌∷◌, arith, none, some, ok, err, true}
use cargo_website.Base.Text.{codes, contains}
use cargo_website.Base.Decimal.{parse_u32, parse_digits}
use cargo_website.Base.Words.{u32_mod}
use cargo_website.Pagination.{
  numeric, PaginationOptions, PageLimits, PaginationOptionsBuilder, builder, limit_page_numbers,
  enable_seek, Request, Paginated, gather, gather_page, gather_per_page, offset, is_blocked,
  offset_too_large, suspected_bot, large_page_offset, Params, query_with_params, next_page_params,
}
use cargo_website.Pagination.Gather.{Asks, AsksRows, gather_iff}
use cargo_website.Pagination.Walk.{follow_next, offset_iff}

abbrev limits : PageLimits
limits = record { max_allowed_page_offset = 20; page_offset_ua_blocklist = codes "crawler" ∷ [] }

abbrev options : PaginationOptionsBuilder
options = enable_seek (limit_page_numbers builder limits) true

abbrev second : Request
second = record {
  page_param = some (codes "2");
  seek_param = none;
  per_page_param = some (codes "2");
  user_agent = codes "a crawler";
}

abbrev page_two : PaginationOptions
page_two = record { page = numeric 2; per_page = 2 }

abbrev full_page : Paginated ℕ
full_page = record { records_and_total = (30, 9) ∷ (40, 9) ∷ []; options = page_two }

crawler :
    gather options (record second { page_param = some (codes "21") })
    ≡ (suspected_bot ∷ large_page_offset ∷ [], err offset_too_large)
unfolding gather gather_page gather_per_page is_blocked contains parse_u32 parse_digits
crawler = refl

gather_iff_example :
    ((gather options second).1 ≡ ok page_two)
    ↔ (Asks options second (numeric 2) × AsksRows options second 2)
gather_iff_example = gather_iff options second page_two

follow_next_example :
    (link : Params) × (next_page_params full_page ≡ some link)
    × ((gather options (query_with_params second link)).1
        ≡ ok (record { page = numeric 3; per_page = 2 }))
unfolding gather gather_page gather_per_page is_blocked contains parse_u32 parse_digits
follow_next_example =
    follow_next options second full_page 2 refl refl (omega arith) (omega arith) refl

-- The first page of a hundred rows whose offset wraps around.
offset_iff_example :
    (offset (record { page = numeric 42_949_674; per_page = 100 }) ≡ some 4_294_967_300)
    ↔ (4_294_967_300 < u32_mod)
offset_iff_example = offset_iff 42_949_673 100 (omega arith)
