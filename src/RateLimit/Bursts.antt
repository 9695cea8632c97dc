-- ===== src/RateLimit/Bursts.antt =====
-- How many new crates a user can publish in a stretch of time.
use native.Mathlib.Nat.{mul-le-mul_right}
use native.Mathlib.Decide.{dec_le}
use cargo_website.Base.{
  ℕ, zero, suc, ◌+◌, ◌-◌, ◌*◌, ◌/◌, ◌≤◌, ◌<◌, ◌≡◌, Bool, true, false, List, [], ◌∷◌, some, refl, ap,
  arith, Result, ok, err, if◌then◌else◌, ltb, lt→ltb, ==_iff,
}
use cargo_website.Base.Int.{ℤ, pos, negsuc, ◌+ℤ◌, ◌≤ℤ◌, ltb_ℤ}
use cargo_website.RateLimit.{
  PublishRateLimit, Bucket, Tables, Error, too_many_requests, least, burst_of, refill_rate,
  check_rate_limit, store,
}
use cargo_website.RateLimit.Bounds.{bucket, take_token-refill, whole_intervals}

-- One publication of a new crate, in a transaction: the tables that it leaves, and whether it went
-- through.
abbrev pub settle : Tables → Result Error Tables → Bool × Tables
settle db (ok db') = (true, db')
settle db (err e) = (false, db)

abbrev pub attempt : PublishRateLimit → ℕ → Tables → ℕ → Bool × Tables
attempt self u db n = settle db (check_rate_limit self u (pos n) db)

-- How many of the attempts at these times are accepted.
abbrev pub accepted : PublishRateLimit → ℕ → Tables → List ℕ → ℕ
accepted self u db [] = 0
accepted self u db (n ∷ times) =
    let (through, db') = attempt self u db n in
    (if through then 1 else 0) + accepted self u db' times

-- The times do not go back, and lie between `lo` and `hi`.
abbrev pub Within : ℕ → ℕ → List ℕ → Type 0
Within lo hi [] = lo ≤ hi
Within lo hi (n ∷ times) = (lo ≤ n) × Within n hi times

module _ (self : PublishRateLimit) (u : ℕ) where
  -- An attempt that is refused changes nothing; one that is accepted pays with one token.
  data Paid (db : Tables) (t l n : ℕ) : Bool × Tables → Type 0 where
    refused : Paid db t l n (false, db)
    paid :
        (t' l' : ℕ) (db' : Tables)
        → db'.buckets u ≡ some (bucket u t' l')
        → 1 ≤ t'
        → t' ≤ t - 1 + (n - l) / refill_rate self
        → l' ≡ l + refill_rate self * ((n - l) / refill_rate self)
        → Paid db t l n (true, db')

  module _ (db : Tables) (t l n : ℕ) where
    abbrev at : ℕ
    at = l + refill_rate self * ((n - l) / refill_rate self)

    abbrev refilled : ℤ → Bucket
    refilled z = record { user_id = u; tokens = z; last_refill = pos at }

    settle-Paid :
        (z : ℤ) (e : Error)
        → z ≤ℤ pos (t - 1 + (n - l) / refill_rate self)
        → Paid db t l n
            (settle db (if ltb_ℤ z (pos 1) then err e else ok (store db u (refilled z))))
    settle-Paid (negsuc k) e h = rw (lt→ltb 0 (1 + suc k) (omega arith)) refused
    settle-Paid (pos zero) e h = refused
    settle-Paid (pos (suc t')) e h =
        rw (not_short t')
          (paid (suc t') at _ (rw ((==_iff u u).1 refl)) (omega arith) (omega arith) refl)
      where
        not_short : (k : ℕ) → ltb (suc k + 0) (1 + 0) ≡ false
        not_short k = ground arith

  least-le : (a b : ℤ) → least a b ≤ℤ b
  unfolding least
  least-le a b = ground arith

  attempt-Paid :
      (db : Tables) (t l n : ℕ)
      → db.buckets u ≡ some (bucket u t l)
      → 0 < refill_rate self
      → l ≤ n
      → Paid db t l n (attempt self u db n)
  unfolding check_rate_limit
  attempt-Paid db t l n e h k =
      rw (take_token-refill self u db t l n e h k, check_rate_limit)
        (settle-Paid db t l n
          (least (burst_of self db u (pos n)) (pos (t - 1 + (n - l) / refill_rate self)))
          (too_many_requests (pos (at db t l n) +ℤ pos self.rate))
          (least-le (burst_of self db u (pos n)) (pos (t - 1 + (n - l) / refill_rate self))))

  -- One step of the account: what an accepted attempt costs.
  pay :
      (r t l hi add s a : ℕ)
      → suc s ≤ t - 1 + add
      → a * r + (l + r * add) ≤ (suc s - 1) * r + hi
      → (1 + a) * r + l ≤ (t - 1) * r + hi
  pay r t l hi add s a q h =
      let e : suc s - 1 ≡ s = omega arith in
      omega (arith, mul-le-mul_right {m = suc s} {n = t - 1 + add} r q, ap (λ z. z * r) e)

  abbrev Bound : List ℕ → Tables → ℕ → ℕ → ℕ → Type 0
  Bound times db t l hi =
      accepted self u db times * refill_rate self + l ≤ (t - 1) * refill_rate self + hi

  accepted_step :
      (db : Tables) (t l n hi : ℕ) (times : List ℕ) (o : Bool × Tables)
      → db.buckets u ≡ some (bucket u t l)
      → 0 < refill_rate self
      → l ≤ n
      → Within n hi times
      → ((db' : Tables) (t' l' : ℕ)
          → db'.buckets u ≡ some (bucket u t' l')
          → l' ≤ n
          → Bound times db' t' l' hi)
      → Paid db t l n o
      → ((if o.0 then 1 else 0) + accepted self u o.1 times) * refill_rate self + l
        ≤ (t - 1) * refill_rate self + hi
  accepted_step db t l n hi times o e h k w ih refused = omega (arith, ih db t l e k)
  accepted_step db t l n hi times o e h k w ih (paid zero l' db' e' one q m) = absurd (omega arith)
  accepted_step db t l n hi times o e h k w ih (paid (suc s) l' db' e' one q m) =
      pay (refill_rate self) t l hi ((n - l) / refill_rate self) s (accepted self u db' times) q (
        omega (
          arith,
          m,
          ih db' (suc s) l' e' (omega (arith, whole_intervals (n - l) (refill_rate self) h)),
        ))

  accepted-Bound :
      (times : List ℕ) (db : Tables) (t l lo hi : ℕ)
      → db.buckets u ≡ some (bucket u t l)
      → 0 < refill_rate self
      → l ≤ lo
      → Within lo hi times
      → Bound times db t l hi
  accepted-Bound [] db t l lo hi e h k w = omega arith
  accepted-Bound (n ∷ times) db t l lo hi e h k w =
      accepted_step db t l n hi times (attempt self u db n) e h (omega arith) w.1
        (λ db' t' l' e' k'. accepted-Bound times db' t' l' n hi e' h k' w.1)
        (attempt-Paid db t l n e h (omega arith))

quotient_bound : (a c r l hi : ℕ) → 0 < r → a * r + l ≤ c * r + hi → a ≤ c + (hi - l) / r
quotient_bound a c r l hi h b = elim (dec_le a (c + (hi - l) / r)) [
  | yes p ↦ p
  | no p ↦ absurd (
      omega (
        arith,
        mul-le-mul_right {m = suc (c + (hi - l) / r)} {n = a} r (omega arith),
        whole_intervals (hi - l) r h,
      ))
]

-- From a bucket of `t` tokens that was last refilled at `l`, with a rate of at least a millisecond
-- and clocks that do not go back: by the time `hi` a user has published at most `t - 1` new crates,
-- and one more for each whole interval since `l`, however the attempts are spread and whatever the
-- burst overrides say.
pub accepted-le :
    (self : PublishRateLimit) (u : ℕ) (db : Tables) (times : List ℕ) (t l hi : ℕ)
    → db.buckets u ≡ some (bucket u t l)
    → 0 < refill_rate self
    → Within l hi times
    → accepted self u db times ≤ t - 1 + (hi - l) / refill_rate self
accepted-le self u db times t l hi e h w =
    let b = accepted-Bound self u times db t l l hi e h (omega arith) w in
    quotient_bound (accepted self u db times) (t - 1) (refill_rate self) l hi h b
