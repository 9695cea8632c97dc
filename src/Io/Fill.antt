-- ===== src/Io/Fill.antt =====
-- Reading whole values from a reader that returns its bytes in chunks of any size.
use mathlib.Core.List.{append_assoc}
use cargo_website.Base.{
  ℕ, zero, suc, ◌-◌, ◌≤◌, ◌<◌, ◌≡◌, ◌∙◌, ap, false, List, [], ◌∷◌, ◌++◌, refl, arith, Result, ok,
  err, ◌==◌, ltb, if◌then◌else◌, length, length-append, ◌>>=◌, take, drop, Bool-cases, inl, inr,
}
use cargo_website.Io.{
  chunk, failure, Reader, Error, inner_failed, end_of_file, read, read_fill_loop, read_fill,
}

-- How the bytes of a reader end.
pub data Stop : Type 0 where
  at_end failed : Stop

abbrev pub with_bytes : List ℕ → List ℕ × Stop → List ℕ × Stop
with_bytes bs rest = (bs ++ rest.0, rest.1)

-- The bytes that can be read one after the other, and what comes then.
unfoldable pub supply : Reader → List ℕ × Stop
supply [] = ([], at_end)
supply (failure ∷ r) = ([], failed)
supply (chunk [] ∷ r) = ([], at_end)
supply (chunk (b ∷ bs) ∷ r) = with_bytes (b ∷ bs) (supply r)

abbrev pub stop_error : Stop → Error
stop_error at_end = end_of_file
stop_error failed = inner_failed

-- What a call of `read` with room for a byte finds.
pub data Found (n : ℕ) (r : Reader) : Result Error (List ℕ × Reader) → Type 0 where
  nothing : (r' : Reader) → supply r ≡ ([], at_end) → Found n r (ok ([], r'))
  broken : supply r ≡ ([], failed) → Found n r (err inner_failed)
  some_bytes :
      (b : ℕ) (bs : List ℕ) (r' : Reader)
      → suc (length bs) ≤ n
      → supply r ≡ with_bytes (b ∷ bs) (supply r')
      → Found n r (ok (b ∷ bs, r'))

length-take {ℓ} : {A : Type ℓ} (n : ℕ) (xs : List A) → length (take n xs) ≤ n
length-take zero xs = omega arith
length-take (suc n) [] = omega arith
length-take (suc n) (x ∷ xs) = omega (arith, length-take n xs)

take-all {ℓ} : {A : Type ℓ} (n : ℕ) (xs : List A) → length xs ≤ n → take n xs ≡ xs
take-all zero [] le = refl
take-all (suc n) [] le = refl
take-all zero (x ∷ xs) le = absurd (omega arith)
take-all (suc n) (x ∷ xs) le = ap (λ zs. x ∷ zs) (take-all n xs (omega arith))

supply-drop :
    (n : ℕ) (bs : List ℕ) (r : Reader)
    → n < length bs
    → with_bytes bs (supply r) ≡ with_bytes (take n bs) (supply (chunk (drop n bs) ∷ r))
unfolding supply
supply-drop n [] r lt = absurd (omega arith)
supply-drop zero (b ∷ bs) r lt = refl
supply-drop (suc n) (b ∷ bs) r lt =
    ap (λ p. with_bytes (b ∷ []) p) (supply-drop n bs r (omega arith))

read_chunk :
    (n b : ℕ) (bs : List ℕ) (r : Reader)
    → Found (suc n) (chunk (b ∷ bs) ∷ r) (read (suc n) (chunk (b ∷ bs) ∷ r))
unfolding read
read_chunk n b bs r = elim (Bool-cases (ltb (suc n) (suc (length bs)))) [
  | inl e ↦ rw e (
      some_bytes b (take n bs) (chunk (drop n bs) ∷ r) (omega (arith, length-take n bs))
        (unfold supply in ap (λ p. with_bytes (b ∷ []) p) (supply-drop n bs r (ground arith))))
  | inr e ↦ rw e (
      some_bytes b (take n bs) r (omega (arith, length-take n bs))
        (unfold supply in rw (take-all n bs (ground arith)) refl))
]

pub read-Found : (n : ℕ) (r : Reader) → Found (suc n) r (read (suc n) r)
unfolding read
read-Found n [] = unfold supply in nothing [] refl
read-Found n (failure ∷ r) = unfold supply in broken refl
read-Found n (chunk [] ∷ r) =
    let e : ltb (suc n) 0 ≡ false = ground arith in unfold supply in rw e (nothing r refl)
read-Found n (chunk (b ∷ bs) ∷ r) = read_chunk n b bs r

-- What `read_fill` of `n` bytes is to return from a supply: the first `n` of the bytes, and a reader
-- that supplies the rest, or the error of the place where the bytes end.
pub data Filled (n : ℕ) (s : List ℕ × Stop) : Result Error (List ℕ × Reader) → Type 0 where
  full :
      (bs : List ℕ) (r' : Reader)
      → length bs ≡ n
      → s ≡ with_bytes bs (supply r')
      → Filled n s (ok (bs, r'))
  short : length s.0 < n → Filled n s (err (stop_error s.1))

after_chunk :
    (n b : ℕ) (bs : List ℕ) (s s' : List ℕ × Stop) {res : Result Error (List ℕ × Reader)}
    → suc (length bs) ≤ suc n
    → s ≡ with_bytes (b ∷ bs) s'
    → Filled (suc n - suc (length bs)) s' res
    → Filled (suc n) s (do more ← res; ok ((b ∷ bs) ++ more.0, more.1))
after_chunk n b bs s s' le e (full cs r' len f) =
    full (b ∷ bs ++ cs) r' (omega (arith, length-append bs cs))
      (e ∙ ap (λ p. with_bytes (b ∷ bs) p) f ∙ rw (append_assoc bs cs (supply r').0) refl)
after_chunk n b bs s s' le e (short lt) = rw e (short (omega (arith, length-append bs s'.0)))

-- A round of the loop, given what its `read` has found and what the other rounds return.
round-Filled :
    (fuel n : ℕ) (r : Reader) {res : Result Error (List ℕ × Reader)}
    → ((m : ℕ) (r' : Reader) → m ≤ fuel → Filled m (supply r') (read_fill_loop fuel m r'))
    → n ≤ fuel
    → Found (suc n) r res
    → Filled (suc n) (supply r) (do
      got ← res
      if length got.0 == 0 then err end_of_file else (do
        more ← read_fill_loop fuel (suc n - length got.0) got.1
        ok (got.0 ++ more.0, more.1)))
round-Filled fuel n r others le (nothing r' e) = rw e (short (omega arith))
round-Filled fuel n r others le (broken e) = rw e (short (omega arith))
round-Filled fuel n r others le (some_bytes b bs r' fits e) =
    let some_read : (suc (length bs) == 0) ≡ false = ground arith in
    rw some_read (
      after_chunk n b bs (supply r) (supply r') fits e
        (others (suc n - suc (length bs)) r' (omega arith)))

read_fill_loop-Filled :
    (fuel n : ℕ) (r : Reader) → n ≤ fuel → Filled n (supply r) (read_fill_loop fuel n r)
unfolding read_fill_loop
read_fill_loop-Filled zero zero r le = full [] r refl refl
read_fill_loop-Filled zero (suc n) r le = absurd (omega arith)
read_fill_loop-Filled (suc fuel) zero r le = full [] r refl refl
read_fill_loop-Filled (suc fuel) (suc n) r le =
    round-Filled fuel n r (λ m r' h. read_fill_loop-Filled fuel m r' h) (omega arith)
      (read-Found n r)

-- However the bytes are cut into chunks, `read_fill` returns the first so many bytes of the reader,
-- and leaves a reader that supplies the rest; if there are not so many, it returns the error of the
-- place where they end.
pub read_fill-Filled : (n : ℕ) (r : Reader) → Filled n (supply r) (read_fill n r)
unfolding read_fill
read_fill-Filled n r = read_fill_loop-Filled n n r (omega arith)
