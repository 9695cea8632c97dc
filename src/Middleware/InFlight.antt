-- ===== src/Middleware/InFlight.antt =====
-- The requests that are in flight together.
use cargo_website.Base.{
  ℕ, suc, ◌+◌, ◌*◌, ◌/◌, ◌%◌, ◌^◌, ◌≤◌, ◌<◌, ◌≡◌, ◌⊎◌, refl, subst, arith, Bool, true, false, not,
  ◌&&◌, List, [], ◌∷◌, ◌++◌, if◌then◌else◌, leb, ◌==◌, ==_iff, length, length-append, Bool-cases,
  inl, inr,
}
use cargo_website.Middleware.Capacity.{
  BalanceCapacity, Counters, Request, Decision, handle, service_unavailable, panicked, add_one,
  drop_one, is_download, handle_high_load, load, decide, arrive, leave,
}

-- A request that has arrived and not left, and what was decided.
pub record Flight : Type 0 where
  pub request : Request
  pub decision : Decision

abbrev pub count {ℓ} : {A : Type ℓ} → (A → Bool) → List A → ℕ
count p [] = 0
count p (x ∷ xs) = (if p x then 1 else 0) + count p xs

abbrev is_handle : Decision → Bool
is_handle handle = true
is_handle _ = false

-- Requests other than downloads, and those of them that have been passed on.
abbrev pub counts : Flight → Bool
counts f = not (is_download f.request)

abbrev pub is_served : Flight → Bool
is_served f = counts f && is_handle f.decision

module _ (self : BalanceCapacity) where
  -- What can come of any requests that arrive and leave in any order, as long as the counters and the
  -- percentage do not overflow.
  pub data Reachable : Counters → List Flight → Type 0 where
    start : Reachable (record { in_flight_total = 0; in_flight_non_dl_requests = 0 }) []
    arrived :
        (request : Request) (counters : Counters) (fs : List Flight)
        → Reachable counters fs
        → 100 * suc (length fs) < 2 ^ 64
        → Reachable
            (arrive self request counters).1
            (record { request = request; decision = (arrive self request counters).0 } ∷ fs)
    left :
        (counters : Counters) (fs gs : List Flight) (f : Flight)
        → Reachable counters (fs ++ f ∷ gs)
        → Reachable (leave f.request counters) (fs ++ gs)

count-append {ℓ} :
    {A : Type ℓ} (p : A → Bool) (xs ys : List A) → count p (xs ++ ys) ≡ count p xs + count p ys
count-append p [] ys = omega arith
count-append p (x ∷ xs) ys = omega (arith, count-append p xs ys)

count-length {ℓ} : {A : Type ℓ} (p : A → Bool) (xs : List A) → count p xs ≤ length xs
count-length p [] = omega arith
count-length p (x ∷ xs) = ground (arith, count-length p xs)

count-is_served : (fs : List Flight) → count is_served fs ≤ count counts fs
count-is_served [] = omega arith
count-is_served (f ∷ fs) = ground (arith, count-is_served fs)

add_one-small : (n : ℕ) → 100 * suc n < 2 ^ 64 → add_one n ≡ n + 1
unfolding add_one
add_one-small n h = omega arith

drop_one-suc : (n : ℕ) → n < 2 ^ 63 → drop_one (suc n) ≡ n
unfolding drop_one
drop_one-suc n h = omega arith

below_quotient : (n d q : ℕ) → 0 < d → n / d < q → n < q * d
below_quotient n d q h k = grind arith

mod_small : (n : ℕ) → n < 2 ^ 64 → n % 2 ^ 64 ≡ n
mod_small n h = omega arith

leb-false : (a b : ℕ) → leb a b ≡ false → b < a
leb-false a b h = ground arith

below :
    (self : BalanceCapacity) (n : ℕ)
    → 100 * n < 2 ^ 64
    → leb self.dl_only_at_percentage (load self n) ≡ false
    → 100 * n / self.db_capacity < self.dl_only_at_percentage
unfolding load
below self n small g =
    subst (λ k. k / self.db_capacity < self.dl_only_at_percentage) (mod_small (100 * n) small)
      (leb-false self.dl_only_at_percentage (load self n) g)

-- A request that is passed on meets less than the percentage of the capacity.
decide-handle :
    (self : BalanceCapacity) (is_safe : Bool) (n : ℕ)
    → self.report_only ≡ false
    → 0 < self.db_capacity
    → 100 * n < 2 ^ 64
    → decide self is_safe n ≡ handle
    → 100 * n < self.dl_only_at_percentage * self.db_capacity
unfolding decide handle_high_load
decide-handle self is_safe n real some_capacity small h =
    elim (Bool-cases (self.db_capacity == 0)) [
      | inl e ↦ absurd (omega (arith, (==_iff self.db_capacity 0).0 e))
      | inr e ↦ elim (Bool-cases (leb self.throttle_at_percentage (load self n) && is_safe)) [
        | inl throttled ↦
            let refusal : decide self is_safe n ≡ service_unavailable =
              rw (decide, e, throttled, handle_high_load, real) refl in
            absurd (cc)
        | inr f ↦ elim (Bool-cases (leb self.dl_only_at_percentage (load self n))) [
          | inl dl_only ↦
              let refusal : decide self is_safe n ≡ service_unavailable =
                rw (decide, e, f, dl_only, handle_high_load, real) refl in
              absurd (cc)
          | inr g ↦
              below_quotient (100 * n) self.db_capacity self.dl_only_at_percentage some_capacity
                (below self n small g)
        ]
      ]
    ]

fewer : (m k b : ℕ) → (m ≡ 0) ⊎ (100 * m < b) → k ≤ m → (k ≡ 0) ⊎ (100 * k < b)
fewer m k b (inl e) h = inl (omega arith)
fewer m k b (inr e) h = inr (omega arith)

dropped : (m n : ℕ) → m ≡ suc n → m < 2 ^ 63 → drop_one m ≡ n
dropped m n e h = rw e (drop_one-suc n (omega arith))

is_handle-true : (d : Decision) → is_handle d ≡ true → d ≡ handle
is_handle-true handle h = refl
is_handle-true service_unavailable h = cc
is_handle-true panicked h = cc

-- What holds of the counters and of the flights.
abbrev pub IsCounted : BalanceCapacity → Counters → List Flight → Type 0
IsCounted self c fs =
    (c.in_flight_total ≡ length fs)
    × (c.in_flight_non_dl_requests ≡ count counts fs)
    × ((count is_served fs ≡ 0)
        ⊎ (100 * count is_served fs < self.dl_only_at_percentage * self.db_capacity))

module _ (self : BalanceCapacity) (real : self.report_only ≡ false)
    (some_capacity : 0 < self.db_capacity) where
  arrived-served :
      (is_safe : Bool) (n served : ℕ)
      → (served ≡ 0) ⊎ (100 * served < self.dl_only_at_percentage * self.db_capacity)
      → served < n
      → 100 * n < 2 ^ 64
      → let k = (if is_handle (decide self is_safe n) then 1 else 0) + served in
        (k ≡ 0) ⊎ (100 * k < self.dl_only_at_percentage * self.db_capacity)
  arrived-served is_safe n served h less small =
      elim (Bool-cases (is_handle (decide self is_safe n))) [
        | inl e ↦
            let room = decide-handle self is_safe n real some_capacity small (is_handle-true _ e) in
            rw e (inr (omega (arith, room, less)))
        | inr e ↦ rw e (fewer served (0 + served) _ h (omega arith))
      ]

  arrived-IsCounted :
      (request : Request) (c : Counters) (fs : List Flight)
      → IsCounted self c fs
      → 100 * suc (length fs) < 2 ^ 64
      → IsCounted self
          (arrive self request c).1
          (record { request = request; decision = (arrive self request c).0 } ∷ fs)
  unfolding arrive
  arrived-IsCounted request c fs h small =
      let total : add_one c.in_flight_total ≡ suc (length fs) =
        rw (h.0) (omega (arith, add_one-small (length fs) small)) in
      let smaller : 100 * suc (count counts fs) < 2 ^ 64 =
        omega (arith, small, count-length counts fs) in
      let non_dl : add_one c.in_flight_non_dl_requests ≡ 1 + count counts fs =
        rw (h.1) (omega (arith, add_one-small (count counts fs) smaller)) in
      elim (Bool-cases (is_download request)) [
        | inl e ↦ rw (e) (
          total,
          omega (arith, h.1),
          fewer (count is_served fs) (0 + count is_served fs) _ h.2 (omega arith),
        )
        | inr e ↦
            rw (e, non_dl)
              (
                total,
                refl,
                arrived-served request.is_safe (1 + count counts fs) (count is_served fs) h.2
                    (omega (arith, count-is_served fs)) (omega (arith, smaller)),
              )
      ]

  left-IsCounted :
      (c : Counters) (fs gs : List Flight) (f : Flight)
      → length (fs ++ f ∷ gs) < 2 ^ 63
      → IsCounted self c (fs ++ f ∷ gs)
      → IsCounted self (leave f.request c) (fs ++ gs)
  unfolding leave
  left-IsCounted c fs gs f small h =
      let more = length-append fs (f ∷ gs) in
      let total : drop_one c.in_flight_total ≡ length (fs ++ gs) =
        rw (h.0) (dropped _ _ (omega (arith, more, length-append fs gs)) small) in
      let served =
        fewer (count is_served (fs ++ f ∷ gs)) (count is_served (fs ++ gs)) _ h.2
          (omega (arith, count-append is_served fs (f ∷ gs), count-append is_served fs gs)) in
      let before = count-append counts fs (f ∷ gs) in
      let after = count-append counts fs gs in
      elim (Bool-cases (is_download f.request)) [
        | inl e ↦
            let one : count counts (f ∷ gs) ≡ count counts gs = rw e (omega arith) in
            rw (e) (total, omega (arith, h.1, before, after, one), served)
        | inr e ↦
            let one : count counts (f ∷ gs) ≡ suc (count counts gs) = rw e (omega arith) in
            rw (e) (
              total,
              rw (h.1) (
                  dropped _ _ (omega (arith, before, after, one))
                    (omega (arith, small, count-length counts (fs ++ f ∷ gs)))),
              served,
            )
      ]

  reached :
      (c : Counters) (fs : List Flight)
      → Reachable self c fs
      → IsCounted self c fs × (100 * length fs < 2 ^ 64)
  reached _ _ start = ((refl, refl, inl refl), omega arith)
  reached _ _ (arrived request c fs r small) =
      (arrived-IsCounted request c fs (reached c fs r).0 small, small)
  reached _ _ (left c fs gs f r) =
      let (h, small) = reached c (fs ++ f ∷ gs) r in
      (
        left-IsCounted c fs gs f (omega (arith, small)) h,
        omega (arith, small, length-append fs (f ∷ gs), length-append fs gs),
      )

-- Where requests are really rejected and the capacity is not zero, and whatever requests arrive and
-- leave, in any order, as long as a hundred times their number fits into a machine word: the counters
-- are the number of requests in flight and of those that are no downloads, and of the latter those
-- that have been passed on are none, or a smaller part of the capacity than the percentage from which
-- on only downloads are served.
pub Reachable-IsCounted :
    (self : BalanceCapacity) (c : Counters) (fs : List Flight)
    → self.report_only ≡ false
    → 0 < self.db_capacity
    → Reachable self c fs
    → IsCounted self c fs
Reachable-IsCounted self c fs real some_capacity r = (reached self real some_capacity c fs r).0
