-- ===== src/RateLimit/Tests.antt =====
-- A limit of five crates at once and one more every ten minutes.
use cargo_website.Base.{◌≡◌, ◌≤◌, refl, [], ◌∷◌, arith, none, some, ok, if◌then◌else◌, ◌==◌}
use cargo_website.Base.Int.{pos, negsuc, ◌≤ℤ◌, ◌+ℤ◌, ◌-ℤ◌, ◌*ℤ◌}
use cargo_website.RateLimit.{
  PublishRateLimit, Bucket, Tables, refill_rate, burst_of, is_active, take_token, check_rate_limit,
  store, refill, least, greatest, floor_div,
}
use cargo_website.RateLimit.Bounds.{bucket, take_token-clock_back}
use cargo_website.RateLimit.Bursts.{accepted, accepted-le}

abbrev limit : PublishRateLimit
limit = record { rate = 600_000_000; burst = pos 5 }

-- User 7 has a bucket of two tokens; user 8 has an override that has run out.
abbrev tables : Tables
tables = record {
  overrides =
      λ u. if u == 8 then some (record { burst = pos 100; expires_at = some (pos 0) }) else none;
  buckets = λ u. if u == 7 then some (bucket 7 2 0) else none;
}

-- The first crate of user 8: five tokens, as the override is of the past.
first_bucket : take_token limit 8 (pos 1) tables ≡ ok (bucket 8 5 1, store tables 8 (bucket 8 5 1))
unfolding take_token burst_of is_active
first_bucket = refl

-- Of four attempts in the first ten minutes, one pays with the token that is left of the burst, and
-- one with the token of the whole interval.
times : accepted limit 7 tables (0 ∷ 1 ∷ 600_000_000 ∷ 600_000_001 ∷ []) ≡ 2
unfolding take_token burst_of is_active check_rate_limit refill least greatest floor_div refill_rate
    ◌+ℤ◌ ◌-ℤ◌ ◌*ℤ◌
times = refl

accepted-le_example : accepted limit 7 tables (0 ∷ 1 ∷ 600_000_000 ∷ 600_000_001 ∷ []) ≤ 2
unfolding refill_rate
accepted-le_example =
    accepted-le limit 7 tables (0 ∷ 1 ∷ 600_000_000 ∷ 600_000_001 ∷ []) 2 0 600_000_001 refl
      (omega arith) (omega arith, (omega arith, (omega arith, (omega arith, omega arith))))

-- Another server, whose clock is ahead, has refilled the bucket of user 9.
abbrev late : Tables
late = record tables { buckets = λ u. if u == 9 then some (bucket 9 1 2) else none }

take_token-clock_back_example :
    (b : Bucket) × (db' : Tables) × (take_token limit 9 (pos 1) late ≡ ok (b, db'))
    × (b.tokens ≤ℤ negsuc 0)
unfolding refill_rate
take_token-clock_back_example =
    take_token-clock_back limit 9 late 1 2 1 refl (omega arith) (omega arith) (omega arith)
