-- ===== src/Io.antt =====
-- src/util/io_util.rs: reading exactly so many bytes, and reading up to a limit.
--
-- A reader is the sequence of what its `read` calls find: a chunk of bytes, of which a call takes as
-- many as its buffer holds, or an error. At the end of the sequence every call returns 0 bytes, and a
-- chunk of no bytes is such a call too.
pub mod Fill
pub mod LittleEndian
pub mod Limit
mod Tests
use Prim.Native.Nat.{bit_or}
use cargo_website.Base.{
  ℕ, ◌^◌, ◌&&◌, Option, some, none, get_or, zero, suc, ◌+◌, ◌-◌, ◌*◌, Bool, List, [], ◌∷◌, ◌++◌,
  Result, ok, err, ◌>>=◌, ◌==◌, ltb, if◌then◌else◌, length, take, drop, min,
}

pub data Event : Type 0 where
  chunk : List ℕ → Event
  failure : Event

abbrev pub Reader : Type 0
Reader = List Event

pub data Error : Type 0 where
  inner_failed end_of_file limit_reached : Error

-- What a loop has read, behind what it had read before.
abbrev pub prepend : List ℕ → Option (Result Error (List ℕ)) → Option (Result Error (List ℕ))
prepend bs none = none
prepend bs (some (err e)) = some (err e)
prepend bs (some (ok more)) = some (ok (bs ++ more))

-- The bytes that `read` has put into a buffer of `n` bytes, and the reader behind them.
unfoldable pub read : ℕ → Reader → Result Error (List ℕ × Reader)
read n [] = ok ([], [])
read n (failure ∷ r) = err inner_failed
read n (chunk bs ∷ r) = ok (take n bs, (if ltb n (length bs) then chunk (drop n bs) ∷ r else r))

-- The loop of `read_fill` over the part of the slice that is left. Each round fills a byte at least,
-- so `n` rounds are enough for `n` bytes.
unfoldable pub read_fill_loop : ℕ → ℕ → Reader → Result Error (List ℕ × Reader)
read_fill_loop zero n r = ok ([], r)
read_fill_loop (suc fuel) zero r = ok ([], r)
read_fill_loop (suc fuel) (suc n) r =
    let rest = λ (got : List ℕ × Reader). (do
      more ← read_fill_loop fuel (suc n - length got.0) got.1
      ok (got.0 ++ more.0, more.1)) in
    do got ← read (suc n) r; if length got.0 == 0 then err end_of_file else rest got

unfoldable pub read_fill : ℕ → Reader → Result Error (List ℕ × Reader)
unfolding read_fill_loop read
read_fill n r = read_fill_loop n n r

abbrev pub byte_at : List ℕ → ℕ → ℕ
byte_at bs i = get_or bs i 0

-- The four bytes of a `u32`, the lowest first.
unfoldable pub from_le_bytes : List ℕ → ℕ
from_le_bytes b =
    bit_or (bit_or (bit_or (byte_at b 0) (byte_at b 1 * 2 ^ 8)) (byte_at b 2 * 2 ^ 16))
      (byte_at b 3 * 2 ^ 24)

unfoldable pub read_le_u32 : Reader → Result Error (ℕ × Reader)
unfolding read_fill from_le_bytes
read_le_u32 r = do b ← read_fill 4 r; ok (from_le_bytes b.0, b.1)

-- `LimitErrorReader`: an `io::Take`, whose end is an error.
pub record LimitErrorReader : Type 0 where
  pub inner : Reader
  pub limit : ℕ

-- `io::Take::read`: nothing is read behind the limit.
unfoldable pub take_read : ℕ → LimitErrorReader → Result Error (List ℕ × LimitErrorReader)
unfolding read
take_read n self = if self.limit == 0 then ok ([], self) else (do
  got ← read (min n self.limit) self.inner
  ok (got.0, record { inner = got.1; limit = self.limit - length got.0 }))

unfoldable pub limit_read : ℕ → LimitErrorReader → Result Error (List ℕ × LimitErrorReader)
unfolding take_read
limit_read n self = do
  got ← take_read n self
  if length got.0 == 0 && got.1.limit == 0 then err limit_reached else ok got

-- `Read::read_to_end`: `limit_read` with a buffer of `n` bytes, until a call returns none. The loop
-- takes fuel: a round for each byte up to the limit, and one for the end.
unfoldable pub read_to_end : ℕ → ℕ → LimitErrorReader → Option (Result Error (List ℕ))
read_to_end zero n self = none
read_to_end (suc fuel) n self = elim (limit_read n self) [
  | err e ↦ some (err e)
  | ok got ↦ if length got.0 == 0 then some (ok []) else prepend got.0 (read_to_end fuel n got.1)
]
