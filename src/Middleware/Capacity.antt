-- ===== src/Middleware/Capacity.antt =====
-- src/middleware/balance_capacity.rs: which requests are rejected under load.
--
-- A call has two steps, so that others can come between them: it arrives, which counts it and decides,
-- and it leaves, when the guards of the counters are dropped.
use cargo_website.Base.{
  ℕ, ◌+◌, ◌-◌, ◌*◌, ◌/◌, ◌%◌, ◌^◌, Bool, ◌&&◌, if◌then◌else◌, leb, ◌==◌, reverse,
}
use cargo_website.Base.Text.{Text, codes, starts_with}

pub record BalanceCapacity : Type 0 where
  pub db_capacity : ℕ
  pub report_only : Bool
  pub log_total_at_count : ℕ
  pub log_at_percentage : ℕ
  pub throttle_at_percentage : ℕ
  pub dl_only_at_percentage : ℕ

-- The two atomic counters, of the type `usize`.
pub record Counters : Type 0 where
  pub in_flight_total : ℕ
  pub in_flight_non_dl_requests : ℕ

pub record Request : Type 0 where
  pub path : Text
  pub is_safe : Bool

-- A division by zero is a panic.
pub data Decision : Type 0 where
  handle service_unavailable panicked : Decision

unfoldable pub add_one : ℕ → ℕ
add_one counter = (counter + 1) % 2 ^ 64

-- `fetch_sub(1)`.
unfoldable pub drop_one : ℕ → ℕ
drop_one counter = (counter + (2 ^ 64 - 1)) % 2 ^ 64

unfoldable pub ends_with : Text → Text → Bool
ends_with s suffix = starts_with (reverse s) (reverse suffix)

unfoldable pub is_download : Request → Bool
is_download request =
    starts_with request.path (codes "/api/v1/crates/") && ends_with request.path (codes "/download")

module _ (self : BalanceCapacity) where
  unfoldable pub handle_high_load : Decision
  handle_high_load = if self.report_only then handle else service_unavailable

  unfoldable pub load : ℕ → ℕ
  load count = 100 * count % 2 ^ 64 / self.db_capacity

  unfoldable pub decide : Bool → ℕ → Decision
  decide is_safe count =
      if self.db_capacity == 0
      then panicked
      else if leb self.throttle_at_percentage (load count) && is_safe
      then handle_high_load
      else if leb self.dl_only_at_percentage (load count)
      then handle_high_load
      else handle

  unfoldable pub arrive : Request → Counters → Decision × Counters
  arrive request counters =
      let total = add_one counters.in_flight_total in
      let count = add_one counters.in_flight_non_dl_requests in
      if is_download request then (handle, record counters { in_flight_total = total }) else (
        decide request.is_safe count,
        record { in_flight_total = total; in_flight_non_dl_requests = count },
      )

unfoldable pub leave : Request → Counters → Counters
leave request counters =
    if is_download request
    then record counters { in_flight_total = drop_one counters.in_flight_total }
    else record {
      in_flight_total = drop_one counters.in_flight_total;
      in_flight_non_dl_requests = drop_one counters.in_flight_non_dl_requests;
    }
