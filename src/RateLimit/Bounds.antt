-- ===== src/RateLimit/Bounds.antt =====
-- What one call of `take_token` does to a bucket.
use cargo_website.Base.{
  ℕ, ◌+◌, ◌-◌, ◌*◌, ◌/◌, ◌≤◌, ◌<◌, ◌≡◌, false, some, refl, arith, ok, ◌==◌, Bool-cases, ==_iff, inl,
  inr,
}
use cargo_website.Base.Int.{ℤ, pos, negsuc, ◌+ℤ◌, ◌-ℤ◌, ◌*ℤ◌, ◌≤ℤ◌, int_laws}
use cargo_website.RateLimit.{
  PublishRateLimit, Bucket, Tables, least, greatest, floor_div, refill, burst_of, refill_rate,
  take_token, store,
}

elapsed : (l n : ℕ) → l ≤ n → pos n -ℤ pos l ≡ pos (n - l)
elapsed l n h = omega int_laws

greatest_tokens : (t : ℕ) → greatest (pos 0) (pos t -ℤ pos 1) ≡ pos (t - 1)
unfolding greatest ◌-ℤ◌
greatest_tokens t = ground arith

pos+ℤpos : (a b : ℕ) → pos a +ℤ pos b ≡ pos (a + b)
pos+ℤpos a b = omega int_laws

pos*ℤpos : (a b : ℕ) → pos a *ℤ pos b ≡ pos (a * b)
unfolding ◌*ℤ◌
pos*ℤpos a b = grind arith

floor_div-pos : (n d : ℕ) → floor_div (pos n) d ≡ pos (n / d)
unfolding floor_div
floor_div-pos n d = refl

-- With a clock that has not gone back, in natural numbers: a bucket with `t` tokens, last refilled at
-- `l`, at the time `n`.
refill_forward :
    (rate t l n u : ℕ) (burst : ℤ)
    → 0 < rate
    → l ≤ n
    → refill rate burst (pos n) (record { user_id = u; tokens = pos t; last_refill = pos l })
      ≡ ok (record {
        user_id = u;
        tokens = least burst (pos (t - 1 + (n - l) / rate));
        last_refill = pos (l + rate * ((n - l) / rate));
      })
unfolding refill
refill_forward rate t l n u burst h k = elim (Bool-cases (rate == 0)) [
  | inl e ↦ absurd (omega (arith, (==_iff rate 0).0 e))
  | inr e ↦ rw (
    e,
    elapsed l n k,
    greatest_tokens t,
    floor_div-pos (n - l) rate,
    pos+ℤpos (t - 1) ((n - l) / rate),
    pos*ℤpos rate ((n - l) / rate),
    pos+ℤpos l (rate * ((n - l) / rate)),
  )
]

pub whole_intervals : (d r : ℕ) → 0 < r → (r * (d / r) ≤ d) × (d < r * (d / r) + r)
whole_intervals d r h = grind arith

-- A bucket of `t` tokens, last refilled at `l`.
abbrev pub bucket : ℕ → ℕ → ℕ → Bucket
bucket u t l = record { user_id = u; tokens = pos t; last_refill = pos l }

module _ (self : PublishRateLimit) (u : ℕ) (db : Tables) (t l n : ℕ) where
  pub take_token-refill :
      db.buckets u ≡ some (bucket u t l)
      → 0 < refill_rate self
      → l ≤ n
      → take_token self u (pos n) db ≡ (
          let b : Bucket = record {
            user_id = u;
            tokens = least (burst_of self db u (pos n)) (pos (t - 1 + (n - l) / refill_rate self));
            last_refill = pos (l + refill_rate self * ((n - l) / refill_rate self));
          } in
          ok (b, store db u b))
  unfolding take_token
  take_token-refill e h k =
      rw (e, take_token)
        (rw (refill_forward (refill_rate self) t l n u (burst_of self db u (pos n)) h k))

no_tokens : (t : ℕ) → t ≤ 1 → t - 1 ≡ 0
no_tokens t h = omega arith

nonzero : (r : ℕ) → 0 < r → (r == 0) ≡ false
nonzero r h = ground arith

behind : (l n : ℕ) → n < l → pos n -ℤ pos l ≡ negsuc (l - n - 1)
behind l n h = omega int_laws

least-negative : (a : ℤ) (k : ℕ) → least a (pos 0 +ℤ negsuc k) ≤ℤ negsuc 0
unfolding least ◌+ℤ◌
least-negative a k = ground arith

-- With a rate of at least a millisecond and a clock behind the last refill, a bucket with at most
-- one token ends below zero.
pub take_token-clock_back :
    (self : PublishRateLimit) (u : ℕ) (db : Tables) (t l n : ℕ)
    → db.buckets u ≡ some (bucket u t l)
    → 0 < refill_rate self
    → t ≤ 1
    → n < l
    → (b : Bucket) × (db' : Tables) × (take_token self u (pos n) db ≡ ok (b, db'))
      × (b.tokens ≤ℤ negsuc 0)
unfolding take_token refill floor_div
take_token-clock_back self u db t l n e h small back =
    let r = refill_rate self in
    let back_to = floor_div (negsuc (l - n - 1)) r in
    let b : Bucket = record {
      user_id = u;
      tokens = least (burst_of self db u (pos n)) (pos 0 +ℤ back_to);
      last_refill = pos l +ℤ pos r *ℤ back_to;
    } in
    (
      b,
      store db u b,
      rw (e, take_token)
          (rw (refill, nonzero r h, behind l n back, greatest_tokens t, no_tokens t small)),
      least-negative (burst_of self db u (pos n)) ((l - n - 1) / r),
    )
