-- ===== src/Updating/Settled.antt =====
-- What a committed transaction of src/tasks/update_downloads.rs does to the row that it is for, and
-- to the other rows.
use cargo_website.Base.{
  ℕ, ◌<◌, ◌≡◌, ◌∙◌, sym, subst, ◌⊎◌, inl, inr, true, false, List, [], ◌∷◌, Any, All, arith,
  Bool-cases, ok, bind-eq-ok, ok_injective,
}
use cargo_website.Base.Distinct.{AreDistinct}
use cargo_website.Base.Int.{ℤ, pos, ◌+ℤ◌}
use cargo_website.Base.Words.{as_i32}
use cargo_website.Updating.{VersionDownload, sub_i32, update_found, same_id, add_to_counted}

-- What the counter of downloads keeps: counts from 0 that fit an `integer`.
abbrev pub IsCount : ℤ → Type 0
IsCount n = (k : ℕ) × (n ≡ pos k) × (k < 2_147_483_648)

abbrev pub HasCounts : VersionDownload → Type 0
HasCounts d = IsCount d.downloads × IsCount d.counted

abbrev pub IsSettled : VersionDownload → Type 0
IsSettled d = (d.processed ≡ true) ⊎ (d.counted ≡ d.downloads)

-- Settled, or among those that are still to be done.
abbrev pub IsWaiting : List VersionDownload → VersionDownload → Type 0
IsWaiting pending d = IsSettled d ⊎ Any (λ y. y ≡ d) pending

-- Up to 2 ^ 31 the difference is added without wrapping.
sub_i32_lem : (d c : ℤ) → IsCount d → IsCount c → c +ℤ sub_i32 d c ≡ d
unfolding sub_i32 as_i32 ◌+ℤ◌
sub_i32_lem d c (n, e, h) (m, f, k) = rw (e, f) (ground arith)

same_id_iff :
    (a b : VersionDownload) → same_id a b ≡ true → (a.version_id ≡ b.version_id) × (a.date ≡ b.date)
same_id_iff a b h = ground arith

pub same_id_refl : (a : VersionDownload) → same_id a a ≡ true
same_id_refl a = ground arith

same_id-sym : (a b : VersionDownload) → same_id a b ≡ same_id b a
same_id-sym a b = ground arith

pub changed_row :
    (amt : ℤ) (x x' : VersionDownload)
    → add_to_counted amt x ≡ ok x'
    → x' ≡ record x { counted = x.counted +ℤ amt }
unfolding add_to_counted
changed_row amt x x' h = ground arith

-- A row that stands behind one of its key is another one.
not-there :
    (d x : VersionDownload) (xs : List VersionDownload)
    → All (λ y. same_id x y ≡ false) xs
    → same_id d x ≡ true
    → Any (λ y. y ≡ d) xs
    → ⊥
not-there d x [] h k m = m
not-there d x (y ∷ xs) h k (inl e) =
    let apart : same_id x d ≡ false = subst (λ z. same_id x z ≡ false) e h.0 in
    let same : same_id x d ≡ true = same_id-sym x d ∙ k in cc
not-there d x (y ∷ xs) h k (inr m) = not-there d x xs h.1 k m

-- The row of `d` is settled and the others are as they were.
module _ (d : VersionDownload) (counts : HasCounts d) (pending : List VersionDownload) where
  abbrev amount : ℤ
  amount = sub_i32 d.downloads d.counted

  settle_others :
      (x : VersionDownload) (xs : List VersionDownload)
      → All (λ y. same_id x y ≡ false) xs
      → same_id d x ≡ true
      → All (IsWaiting (d ∷ pending)) xs
      → All (IsWaiting pending) xs
  settle_others x [] a k h = tt
  settle_others x (y ∷ xs) a k (inl s, h) = (inl s, settle_others x xs a.1 k h)
  settle_others x (y ∷ xs) a k (inr (inl e), h) = absurd (not-there d x (y ∷ xs) a k (inl (sym e)))
  settle_others x (y ∷ xs) a k (inr (inr m), h) = (inr m, settle_others x xs a.1 k h)

  pub settle_one :
      (rows : List VersionDownload) {rows' : List VersionDownload}
      → AreDistinct same_id rows
      → Any (λ y. y ≡ d) rows
      → All (IsWaiting (d ∷ pending)) rows
      → update_found (same_id d) (add_to_counted amount) rows ≡ ok rows'
      → All (IsWaiting pending) rows'
  unfolding update_found
  settle_one [] a m h e = elim m [ ]
  settle_one (x ∷ xs) a m h e = elim (Bool-cases (same_id d x)) [
    | inl k ↦
        let (x', changed, is) =
          bind-eq-ok (add_to_counted amount x) _ (rw (update_found, k) at e) in
        let here : x ≡ d = elim m [ inl e' ↦ e' | inr m' ↦ absurd (not-there d x xs a.0 k m') ] in
        let at_d : x' ≡ record d { counted = d.counted +ℤ amount } =
          subst (λ (z : VersionDownload). x' ≡ record z { counted = z.counted +ℤ amount }) here
            (changed_row amount x x' changed) in
        let settled : x'.counted ≡ x'.downloads =
          subst (λ (z : VersionDownload). z.counted ≡ z.downloads) (sym at_d)
            (sub_i32_lem d.downloads d.counted counts.0 counts.1) in
        subst (λ z. All (IsWaiting pending) z) (ok_injective is)
          (inl (inr settled), settle_others x xs a.0 k h.1)
    | inr k ↦
        let (ys, later, is) =
          bind-eq-ok (update_found (same_id d) (add_to_counted amount) xs) _
            (rw (update_found, k) at e) in
        let differs : x ≡ d → ⊥ = λ e'.
          let same : same_id d x ≡ true =
            subst (λ z. same_id d z ≡ true) (sym e') (same_id_refl d) in
          cc in
        let m' : Any (λ y. y ≡ d) xs = elim m [ inl e' ↦ absurd (differs e') | inr m' ↦ m' ] in
        let here : IsWaiting pending x = elim h.0 [
          | inl s ↦ inl s
          | inr (inl e') ↦ absurd (differs (sym e'))
          | inr (inr w) ↦ inr w
        ] in
        subst (λ z. All (IsWaiting pending) z) (ok_injective is)
          (here, settle_one xs a.1 m' h.1 later)
  ]

-- A row of another key stays where it is.
pub still-there :
    (d p : VersionDownload) (amt : ℤ) (rows : List VersionDownload) {rows' : List VersionDownload}
    → same_id d p ≡ false
    → update_found (same_id d) (add_to_counted amt) rows ≡ ok rows'
    → Any (λ y. y ≡ p) rows
    → Any (λ y. y ≡ p) rows'
unfolding update_found
still-there d p amt [] a e m = elim m [ ]
still-there d p amt (x ∷ xs) a e m = elim (Bool-cases (same_id d x)) [
  | inl k ↦
      let (x', _, is) = bind-eq-ok (add_to_counted amt x) _ (rw (update_found, k) at e) in
      subst (λ z. Any (λ y. y ≡ p) z) (ok_injective is)
        (elim m [
          | inl e' ↦
              let same : same_id d p ≡ true = subst (λ z. same_id d z ≡ true) e' k in absurd (cc)
          | inr m' ↦ inr m'
        ])
  | inr k ↦
      let (ys, later, is) =
        bind-eq-ok (update_found (same_id d) (add_to_counted amt) xs) _
          (rw (update_found, k) at e) in
      subst (λ z. Any (λ y. y ≡ p) z) (ok_injective is)
        (elim m [ inl e' ↦ inl e' | inr m' ↦ inr (still-there d p amt xs a later m') ])
]
