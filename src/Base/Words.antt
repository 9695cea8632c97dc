-- ===== src/Base/Words.antt =====
-- Machine words: `usize`/`u64` arithmetic that wraps, and the cast to `i32`.
use cargo_website.Base.{ℕ, ◌+◌, ◌-◌, ◌%◌, ◌<◌, ◌≡◌, arith, ltb, if◌then◌else◌}
use cargo_website.Base.Int.{ℤ, pos, negsuc}

abbrev pub u32_mod : ℕ
u32_mod = 4_294_967_296

abbrev pub u64_mod : ℕ
u64_mod = 18_446_744_073_709_551_616

-- `fetch_add` and `+` in a release build. An `i64` is kept as its bit pattern.
unfoldable pub wadd : ℕ → ℕ → ℕ
wadd a b = (a + b) % u64_mod

unfoldable pub wsub : ℕ → ℕ → ℕ
wsub a b = (a + u64_mod - b % u64_mod) % u64_mod

-- `n as i32`.
unfoldable pub as_i32 : ℕ → ℤ
as_i32 n = let m = n % u32_mod in if ltb m 2_147_483_648 then pos m else negsuc (u32_mod - m - 1)

pub as_i32_small : (n : ℕ) → n < 2_147_483_648 → as_i32 n ≡ pos n
unfolding as_i32
as_i32_small n h = ground arith

pub wadd_small : (a b : ℕ) → a + b < u64_mod → wadd a b ≡ a + b
unfolding wadd
wadd_small a b h = omega arith

pub wsub-wadd : (a b : ℕ) → a < u64_mod → wsub (wadd a b) b ≡ a
unfolding wadd wsub
wsub-wadd a b h = omega arith
