-- ===== src/Middleware/Tests.antt =====
-- Two requests under load, and paths.
use cargo_website.Base.{◌≡◌, refl, arith, true, false, [], ◌∷◌, some, ◌||◌, All}
use cargo_website.Base.Text.{codes, text_eq, starts_with, contains, split}
use cargo_website.Base.Paths.{components, relative, part_components}
use cargo_website.Middleware.Capacity.{
  BalanceCapacity, Counters, Request, handle, service_unavailable, is_download, ends_with, add_one,
  arrive, decide, load, handle_high_load,
}
use cargo_website.Middleware.InFlight.{Reachable, start, arrived, IsCounted, Reachable-IsCounted}
use cargo_website.Middleware.Blocked.{
  block_traffic, forbidden, require_user_agent, has_user_agent, passed_on,
}
use cargo_website.Middleware.Left.{left_over}
use cargo_website.Middleware.Normalized.{IsPart, whole, normalize_path-normal}
use cargo_website.Middleware.Paths.{
  pop, normalize_path, normalized, fold, push, to_text, join_parts,
}

abbrev balance : BalanceCapacity
balance = record {
  db_capacity = 2;
  report_only = false;
  log_total_at_count = 50;
  log_at_percentage = 50;
  throttle_at_percentage = 70;
  dl_only_at_percentage = 80;
}

abbrev search : Request
search = record { path = codes "/api/v1/crates"; is_safe = true }

abbrev none_yet : Counters
none_yet = record { in_flight_total = 0; in_flight_non_dl_requests = 0 }

abbrev one : Counters
one = record { in_flight_total = 1; in_flight_non_dl_requests = 1 }

abbrev two : Counters
two = record { in_flight_total = 2; in_flight_non_dl_requests = 2 }

first : arrive balance search none_yet ≡ (handle, one)
unfolding arrive is_download starts_with ends_with add_one decide load handle_high_load
first = refl

second : arrive balance search one ≡ (service_unavailable, two)
unfolding arrive is_download starts_with ends_with add_one decide load handle_high_load
second = refl

both : Reachable balance two (
    record { request = search; decision = service_unavailable }
    ∷ record { request = search; decision = handle }
    ∷ [])
unfolding arrive is_download starts_with ends_with add_one decide load handle_high_load
both =
    arrived search one (record { request = search; decision = handle } ∷ [])
      (arrived search none_yet [] start (omega arith)) (omega arith)

Reachable-IsCounted_example : IsCounted balance two (
    record { request = search; decision = service_unavailable }
    ∷ record { request = search; decision = handle }
    ∷ [])
Reachable-IsCounted_example =
    Reachable-IsCounted balance two
      (record { request = search; decision = service_unavailable }
        ∷ record { request = search; decision = handle }
        ∷ [])
      refl (omega arith) both

blocked :
    block_traffic
      (record { header_name = codes "User-Agent"; blocked_values = codes "bot" ∷ [] })
      (λ _. some (codes "bot") ∷ [])
    ≡ forbidden
unfolding block_traffic text_eq
blocked = refl

old_cargo :
    require_user_agent (codes "Amazon CloudFront") [] (codes "/api/v1/crates/foo/1.0.0/download")
    ≡ passed_on
unfolding require_user_agent has_user_agent text_eq ends_with starts_with
old_cargo = refl

up_and_down : normalize_path (codes "//api/v1/../v2") ≡ codes "/api/v2"
unfolding normalize_path normalized fold push pop to_text join_parts contains starts_with components
    relative part_components split text_eq
up_and_down = refl

holds_slashes :
    (contains (codes "//api/v1/../v2") (codes "//")
      || contains (codes "//api/v1/../v2") (codes "/."))
    ≡ true
unfolding contains starts_with
holds_slashes = refl

normalize_path-normal_example :
    (components (normalize_path (codes "//api/v1/../v2"))
      ≡ whole true (codes "api" ∷ codes "v2" ∷ []))
    × All IsPart (codes "api" ∷ codes "v2" ∷ [])
    × (normalize_path (normalize_path (codes "//api/v1/../v2"))
        ≡ normalize_path (codes "//api/v1/../v2"))
unfolding left_over components relative part_components split text_eq
normalize_path-normal_example = normalize_path-normal (codes "//api/v1/../v2") holds_slashes
