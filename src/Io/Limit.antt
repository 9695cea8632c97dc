-- ===== src/Io/Limit.antt =====
-- Reading to the end through a `LimitErrorReader`.
use cargo_website.Base.{
  ℕ, zero, suc, ◌-◌, ◌≤◌, ◌<◌, ◌≡◌, subst, false, List, [], ◌∷◌, refl, arith, some, Result, ok, err,
  ◌==◌, ltb, if◌then◌else◌, length, length-append, min, ltb,
}
use cargo_website.Io.{
  Reader, Error, inner_failed, limit_reached, LimitErrorReader, read, take_read, limit_read,
  read_to_end, prepend,
}
use cargo_website.Io.Fill.{
  Stop, at_end, failed, supply, with_bytes, Found, nothing, broken, some_bytes, read-Found,
}

-- What reading to the end is to return: all bytes, if the reader ends in front of the limit, or the
-- error that it ends with; and an error as soon as it has as many bytes as the limit.
abbrev pub at_stop : List ℕ × Stop → Result Error (List ℕ)
at_stop (bs, at_end) = ok bs
at_stop (bs, failed) = err inner_failed

abbrev pub limited : ℕ → List ℕ × Stop → Result Error (List ℕ)
limited limit s = if ltb (length s.0) limit then at_stop s else err limit_reached

module _ (n limit : ℕ) (r : Reader) where
  abbrev self : LimitErrorReader
  self = record { inner = r; limit = suc limit }

  limit_read-nothing :
      (r' : Reader)
      → read (min n (suc limit)) r ≡ ok ([], r')
      → limit_read n self ≡ ok ([], record { inner = r'; limit = suc limit })
  unfolding limit_read take_read
  limit_read-nothing r' e = ground arith

  limit_read-err : (e : Error) → read (min n (suc limit)) r ≡ err e → limit_read n self ≡ err e
  unfolding limit_read take_read
  limit_read-err e h = ground arith

  limit_read-bytes :
      (b : ℕ) (bs : List ℕ) (r' : Reader)
      → read (min n (suc limit)) r ≡ ok (b ∷ bs, r')
      → limit_read n self ≡ ok (b ∷ bs, record { inner = r'; limit = suc limit - suc (length bs) })
  unfolding limit_read take_read
  limit_read-bytes b bs r' e = ground arith

limit_read-end :
    (n : ℕ) (r : Reader) → limit_read n (record { inner = r; limit = 0 }) ≡ err limit_reached
unfolding limit_read take_read
limit_read-end n r = ground arith

limited-with_bytes :
    (bs : List ℕ) (limit : ℕ) (s : List ℕ × Stop)
    → length bs ≤ limit
    → prepend bs (some (limited (limit - length bs) s)) ≡ some (limited limit (with_bytes bs s))
limited-with_bytes bs limit (more, at_end) le = ground (arith, length-append bs more)
limited-with_bytes bs limit (more, failed) le = ground (arith, length-append bs more)

-- One call of `read`, given what it has found and what the other rounds return.
round_to_end :
    (fuel n limit : ℕ) (r : Reader) {res : Result Error (List ℕ × Reader)}
    → ((r' : Reader) (left : ℕ)
        → left < fuel
        → read_to_end fuel n (record { inner = r'; limit = left })
          ≡ some (limited left (supply r')))
    → limit < fuel
    → read (min n (suc limit)) r ≡ res
    → Found (min n (suc limit)) r res
    → read_to_end (suc fuel) n (record { inner = r; limit = suc limit })
      ≡ some (limited (suc limit) (supply r))
unfolding read_to_end
round_to_end fuel n limit r others lt same (nothing r' e) =
    rw (read_to_end, limit_read-nothing n limit r r' same, e) (ground arith)
round_to_end fuel n limit r others lt same (broken e) =
    rw (read_to_end, limit_read-err n limit r _ same, e) (ground arith)
round_to_end fuel n limit r others lt same (some_bytes b bs r' fits e) =
    rw (read_to_end, limit_read-bytes n limit r b bs r' same, e)
      (let not_empty : (suc (length bs) == 0) ≡ false = ground arith in
        rw (not_empty, others r' (suc limit - suc (length bs)) (omega arith))
          (limited-with_bytes (b ∷ bs) (suc limit) (supply r') (omega arith)))

-- With a buffer of any size, and a round for each byte up to the limit and one for the end, reading to
-- the end returns: all bytes, if there are fewer than `limit` and no error stands behind them; that
-- error, if there is one; and `limit_reached` as soon as there are `limit` bytes, so that a content of
-- exactly `limit` bytes is refused as well.
pub read_to_end-limited :
    (fuel n limit : ℕ) (r : Reader)
    → 0 < n
    → limit < fuel
    → read_to_end fuel n (record { inner = r; limit = limit }) ≡ some (limited limit (supply r))
unfolding read_to_end
read_to_end-limited zero n limit r some_room lt = absurd (omega arith)
read_to_end-limited (suc fuel) n zero r some_room lt =
    rw (read_to_end, limit_read-end n r) (ground arith)
read_to_end-limited (suc fuel) n (suc limit) r some_room lt =
    let m : ℕ = min n (suc limit) - 1 in
    let same : suc m ≡ min n (suc limit) = omega arith in
    round_to_end fuel n limit r (λ r' left h. read_to_end-limited fuel n left r' some_room h)
      (omega arith) refl (subst (λ k. Found k r (read k r)) same (read-Found m r))
