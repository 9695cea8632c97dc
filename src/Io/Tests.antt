-- ===== src/Io/Tests.antt =====
-- Readers that return their bytes in pieces.
use cargo_website.Base.{◌≡◌, refl, arith, [], ◌∷◌, some, ok, err}
use cargo_website.Io.{chunk, failure, Reader, limit_reached, read_fill, read_le_u32, read_to_end}
use cargo_website.Io.Fill.{failed, supply, Filled, read_fill-Filled}
use cargo_website.Io.LittleEndian.{read_le_u32-to_le_bytes}
use cargo_website.Io.Limit.{read_to_end-limited}

-- The number 258 in two pieces, and a byte behind it.
abbrev pieces : Reader
pieces = chunk (2 ∷ []) ∷ chunk (1 ∷ 0 ∷ 0 ∷ 7 ∷ []) ∷ failure ∷ []

read_fill-Filled_example : Filled 4 (2 ∷ 1 ∷ 0 ∷ 0 ∷ 7 ∷ [], failed) (read_fill 4 pieces)
unfolding supply
read_fill-Filled_example = read_fill-Filled 4 pieces

read_le_u32-to_le_bytes_example :
    (r' : Reader) × (read_le_u32 pieces ≡ ok (258, r')) × (supply r' ≡ (7 ∷ [], failed))
unfolding supply
read_le_u32-to_le_bytes_example =
    read_le_u32-to_le_bytes 258 pieces (7 ∷ [], failed) (omega arith) refl

-- Two bytes, where the limit is two.
read_to_end-limited_example :
    read_to_end 3 32 (record { inner = chunk (1 ∷ 2 ∷ []) ∷ []; limit = 2 })
    ≡ some (err limit_reached)
unfolding supply
read_to_end-limited_example =
    read_to_end-limited 3 32 2 (chunk (1 ∷ 2 ∷ []) ∷ []) (omega arith) (omega arith)
