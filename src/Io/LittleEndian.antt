-- ===== src/Io/LittleEndian.antt =====
-- The four bytes of a `u32`: the bitwise or of the shifted bytes is their number in base 256.
use Prim.Native.Nat.{bit_or, digits, bit_or-bitwise}
use cargo_website.Base.{
  ℕ, zero, suc, ◌+◌, ◌*◌, ◌/◌, ◌%◌, ◌^◌, ◌≤◌, ◌<◌, ◌≡◌, ◌∙◌, ◌>>=◌, sym, ap, refl, arith, max, List,
  [], ◌∷◌, Result, ok, length,
}
use cargo_website.Io.{Reader, Error, from_le_bytes, read_le_u32}
use cargo_website.Io.Fill.{Stop, supply, with_bytes, Filled, full, short, read_fill-Filled}

double : (k c : ℕ) → c * 2 ^ suc k ≡ c * 2 ^ k * 2
double k c = grind arith

or_digits : (k n a c : ℕ) → a ≤ n → a < 2 ^ k → digits (λ b. b) max n a (c * 2 ^ k) ≡ a + c * 2 ^ k
or_digits k zero a c le lt = omega arith
or_digits k (suc n) zero c le lt = omega arith
or_digits zero (suc n) (suc a) c le lt = absurd (omega arith)
or_digits (suc k) (suc n) (suc a) c le lt =
    let half : c * 2 ^ suc k / 2 ≡ c * 2 ^ k = omega (arith, double k c) in
    let even : c * 2 ^ suc k % 2 ≡ 0 = omega (arith, double k c) in
    rw (half, even)
      (omega (arith, or_digits k n (suc a / 2) c (omega arith) (omega arith), double k c))

bit_or-shifted : (k a c : ℕ) → a < 2 ^ k → bit_or a (c * 2 ^ k) ≡ a + c * 2 ^ k
bit_or-shifted k a c lt = bit_or-bitwise a (c * 2 ^ k) ∙ or_digits k a a c (omega arith) lt

from_le_bytes-sum :
    (a b c d : ℕ)
    → a < 256
    → b < 256
    → c < 256
    → from_le_bytes (a ∷ b ∷ c ∷ d ∷ []) ≡ a + b * 256 + c * 65536 + d * 16777216
unfolding from_le_bytes
from_le_bytes-sum a b c d ha hb hc =
    rw (bit_or-shifted 8 a b ha, bit_or-shifted 16 (a + b * 256) c (omega arith))
      (bit_or-shifted 24 (a + b * 256 + c * 65536) d (omega arith))

abbrev pub to_le_bytes : ℕ → List ℕ
to_le_bytes n = n % 256 ∷ n / 256 % 256 ∷ n / 65536 % 256 ∷ n / 16777216 % 256 ∷ []

from_le_bytes-to_le_bytes : (n : ℕ) → n < 4_294_967_296 → from_le_bytes (to_le_bytes n) ≡ n
from_le_bytes-to_le_bytes n fits =
    from_le_bytes-sum (n % 256) (n / 256 % 256) (n / 65536 % 256) (n / 16777216 % 256) (omega arith)
      (omega arith) (omega arith)
    ∙ omega arith

same_four :
    (b0 b1 b2 b3 : ℕ) (bs : List ℕ) (s rest : List ℕ × Stop)
    → length bs ≡ 4
    → with_bytes (b0 ∷ b1 ∷ b2 ∷ b3 ∷ []) rest ≡ with_bytes bs s
    → (bs ≡ b0 ∷ b1 ∷ b2 ∷ b3 ∷ []) × (s ≡ rest)
same_four b0 b1 b2 b3 (c0 ∷ c1 ∷ c2 ∷ c3 ∷ []) s rest len e = (cc, cc)
same_four b0 b1 b2 b3 (c0 ∷ c1 ∷ c2 ∷ c3 ∷ c4 ∷ bs) s rest len e = absurd (omega arith)
same_four b0 b1 b2 b3 (c0 ∷ c1 ∷ c2 ∷ []) s rest len e = absurd (omega arith)
same_four b0 b1 b2 b3 (c0 ∷ c1 ∷ []) s rest len e = absurd (omega arith)
same_four b0 b1 b2 b3 (c0 ∷ []) s rest len e = absurd (omega arith)
same_four b0 b1 b2 b3 [] s rest len e = absurd (omega arith)

abbrev decoded : Result Error (List ℕ × Reader) → Result Error (ℕ × Reader)
decoded res = do b ← res; ok (from_le_bytes b.0, b.1)

Filled-le :
    (n : ℕ) (rest : List ℕ × Stop) {s : List ℕ × Stop} {res : Result Error (List ℕ × Reader)}
    → n < 4_294_967_296
    → s ≡ with_bytes (to_le_bytes n) rest
    → Filled 4 s res
    → (r' : Reader) × (decoded res ≡ ok (n, r')) × (supply r' ≡ rest)
Filled-le n rest fits e (full bs r' len f) =
    let (same, left) = same_four _ _ _ _ bs (supply r') rest len (sym e ∙ f) in
    (r', rw (same, from_le_bytes-to_le_bytes n fits) refl, left)
Filled-le n rest fits e (short lt) = absurd (omega (arith, ap (λ p. length p.0) e))

-- A number below `2 ^ 32` that was written with its lowest byte first is read back, however the bytes
-- are cut into chunks, and what follows is left in the reader.
pub read_le_u32-to_le_bytes :
    (n : ℕ) (r : Reader) (rest : List ℕ × Stop)
    → n < 4_294_967_296
    → supply r ≡ with_bytes (to_le_bytes n) rest
    → (r' : Reader) × (read_le_u32 r ≡ ok (n, r')) × (supply r' ≡ rest)
unfolding read_le_u32
read_le_u32-to_le_bytes n r rest fits e = Filled-le n rest fits e (read_fill-Filled 4 r)
