-- ===== src/RateLimit.antt =====
-- src/publish_rate_limit.rs: the token bucket that limits how often a user publishes new crates.
--
-- Times and durations are in microseconds, the precision of the database's timestamps. The arithmetic
-- of the query is PostgreSQL's, over integers: the code divides seconds held as doubles. A table is a
-- function from its primary key, the user's id.
pub mod Bounds
pub mod Bursts
mod Tests
use cargo_website.Base.{
  ℕ, ◌+◌, ◌*◌, ◌/◌, Bool, true, false, Option, none, some, Result, ok, err, ◌>>=◌, ◌==◌, not,
  if◌then◌else◌,
}
use cargo_website.Base.Int.{ℤ, pos, negsuc, ◌+ℤ◌, ◌-ℤ◌, ◌*ℤ◌, ltb_ℤ}

pub record PublishRateLimit : Type 0 where
  pub rate : ℕ
  pub burst : ℤ

pub record Bucket : Type 0 where
  pub user_id : ℕ
  pub tokens : ℤ
  pub last_refill : ℤ

-- A row of `publish_rate_overrides`.
pub record RateOverride : Type 0 where
  pub burst : ℤ
  pub expires_at : Option ℤ

pub record Tables : Type 0 where
  pub overrides : ℕ → Option RateOverride
  pub buckets : ℕ → Option Bucket

pub data Error : Type 0 where
  division_by_zero : Error
  too_many_requests : (retry_after : ℤ) → Error

-- PostgreSQL's `least` and `greatest`.
unfoldable pub least : ℤ → ℤ → ℤ
least a b = if ltb_ℤ b a then b else a

unfoldable pub greatest : ℤ → ℤ → ℤ
greatest a b = if ltb_ℤ a b then b else a

-- The floor of a quotient.
unfoldable pub floor_div : ℤ → ℕ → ℤ
floor_div (pos n) d = pos (n / d)
floor_div (negsuc n) d = negsuc (n / d)

-- `(self.rate.as_millis() as i64).milliseconds()`.
unfoldable pub refill_rate : PublishRateLimit → ℕ
refill_rate self = self.rate / 1000 * 1000

-- `expires_at IS NULL OR expires_at > now`.
unfoldable pub is_active : ℤ → RateOverride → Bool
is_active now o = elim o.expires_at [ none ↦ true | some at ↦ ltb_ℤ now at ]

unfoldable pub burst_of : PublishRateLimit → Tables → ℕ → ℤ → ℤ
burst_of self db uploader now = elim (db.overrides uploader) [
  | none ↦ self.burst
  | some o ↦ if is_active now o then o.burst else self.burst
]

-- The `DO UPDATE SET` of the query.
unfoldable pub refill : ℕ → ℤ → ℤ → Bucket → Result Error Bucket
refill rate burst now b =
    let tokens_to_add = floor_div (now -ℤ b.last_refill) rate in
    if rate == 0
    then err division_by_zero
    else ok (record b {
      tokens = least burst (greatest (pos 0) (b.tokens -ℤ pos 1) +ℤ tokens_to_add);
      last_refill = b.last_refill +ℤ pos rate *ℤ tokens_to_add;
    })

abbrev pub store : Tables → ℕ → Bucket → Tables
store db uploader b = record db { buckets = λ u. if u == uploader then some b else db.buckets u }

unfoldable pub take_token : PublishRateLimit → ℕ → ℤ → Tables → Result Error (Bucket × Tables)
take_token self uploader now db =
    let burst = burst_of self db uploader now in
    let inserted : Bucket = record { user_id = uploader; tokens = burst; last_refill = now } in
    elim (db.buckets uploader) [
      | none ↦ ok (inserted, store db uploader inserted)
      | some b ↦ do b' ← refill (refill_rate self) burst now b; ok (b', store db uploader b')
    ]

-- `check_rate_limit`. The caller's transaction drops the new tables with the error.
unfoldable pub check_rate_limit : PublishRateLimit → ℕ → ℤ → Tables → Result Error Tables
check_rate_limit self uploader now db = do
  taken ← take_token self uploader now db
  if ltb_ℤ taken.0.tokens (pos 1)
      then err (too_many_requests (taken.0.last_refill +ℤ pos self.rate))
      else ok taken.1
