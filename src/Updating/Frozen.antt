-- ===== src/Updating/Frozen.antt =====
-- What the job of src/tasks/update_downloads.rs does to the marks of the rows that are processed.
use cargo_website.Base.{
  ℕ, ◌≡◌, ◌∙◌, refl, sym, ap, subst, ◌⊎◌, inl, inr, Bool, true, false, ◌&&◌, not, List, [], ◌∷◌,
  map, ltb, if◌then◌else◌, Any, All, All-intro, arith, Bool-cases, Result-cases, Result, ok, err,
}
use cargo_website.Base.Int.{ℤ, pos, negsuc}
use cargo_website.Updating.{
  Error, VersionDownload, Database, Conn, equal_ℤ, sub_i32, same_id, add_to_counted, propagate,
  collect, freeze_row, finish,
}
use cargo_website.Updating.Steps.{update_found-keeps, propagate-IsPropagated}
use cargo_website.Updating.Settled.{IsSettled, changed_row}

pub equal_ℤ-eq : (a b : ℤ) → equal_ℤ a b ≡ true → a ≡ b
equal_ℤ-eq a b h = ground arith

-- The key of a row, and whether it is processed.
abbrev pub flags : VersionDownload → ℕ × ℕ × Bool
flags d = (d.version_id, d.date, d.processed)

-- A row after the job: processed before, or counted in full, and then it is processed exactly if its
-- day is over.
abbrev pub IsDone : ℕ → List VersionDownload → VersionDownload → Type 0
IsDone today before d =
    ((d.processed ≡ true) × Any (λ y. flags y ≡ flags d) before)
    ⊎ ((d.counted ≡ d.downloads) × (d.processed ≡ ltb d.date today))

equal_ℤ-refl : (a : ℤ) → equal_ℤ a a ≡ true
equal_ℤ-refl (pos n) = ground arith
equal_ℤ-refl (negsuc n) = ground arith

pub collect-flags :
    (conn : Conn) (pending : List VersionDownload) (db : Database)
    → map flags (collect conn pending db).1.version_downloads ≡ map flags db.version_downloads
unfolding collect
collect-flags conn [] db = refl
collect-flags conn (d ∷ pending) db = elim (Result-cases (propagate conn d db)) [
  | inl (db', e) ↦
      let i = propagate-IsPropagated conn d db db' e in
      let amt = sub_i32 d.downloads d.counted in
      let one : map flags db'.version_downloads ≡ map flags db.version_downloads =
        update_found-keeps flags (same_id d) (add_to_counted amt)
          (λ x x' c. rw (changed_row amt x x' c) refl) db.version_downloads i.rows_are in
      simp (collect, e) (collect-flags conn pending db' ∙ one)
  | inr (x, e) ↦ simp (collect, e) refl
]

-- Lists with the same flags have the same rows as far as these say.
pub flags-Any :
    (xs ys : List VersionDownload)
    → map flags xs ≡ map flags ys
    → All (λ x. Any (λ y. flags y ≡ flags x) ys) xs
flags-Any xs ys h =
    All-intro xs
      (λ x m. is_in ys (flags x) (subst (λ fs. Any (λ f. f ≡ flags x) fs) h (in_map x xs m)))
  where
    in_map :
        (x : VersionDownload) (xs : List VersionDownload)
        → Any (λ y. y ≡ x) xs
        → Any (λ f. f ≡ flags x) (map flags xs)
    in_map x [] m = elim m [ ]
    in_map x (y ∷ xs) m = elim m [ inl e ↦ inl (ap flags e) | inr k ↦ inr (in_map x xs k) ]

    is_in :
        (ys : List VersionDownload) (f : ℕ × ℕ × Bool)
        → Any (λ g. g ≡ f) (map flags ys)
        → Any (λ y. flags y ≡ f) ys
    is_in [] f m = elim m [ ]
    is_in (y ∷ ys) f m = elim m [ inl e ↦ inl e | inr k ↦ inr (is_in ys f k) ]

frozen_or :
    (today : ℕ) (before : List VersionDownload) (freezes : Bool) (d : VersionDownload)
    → (freezes ≡ true → (d.counted ≡ d.downloads) × (true ≡ ltb d.date today))
    → (freezes ≡ false → IsDone today before d)
    → IsDone today before (if freezes then record d { processed = true } else d)
frozen_or today before true d k h = inr (k refl)
frozen_or today before false d k h = h refl

freeze_row-IsDone :
    (today : ℕ) (before : List VersionDownload) (d : VersionDownload)
    → Any (λ y. flags y ≡ flags d) before
    → IsSettled d
    → IsDone today before (freeze_row today d)
freeze_row-IsDone today before d m s = frozen_or today before _ d freezes (stays s)
  where
    freezes :
        (ltb d.date today && equal_ℤ d.downloads d.counted && not d.processed) ≡ true
        → (d.counted ≡ d.downloads) × (true ≡ ltb d.date today)
    freezes h =
        let full : equal_ℤ d.downloads d.counted ≡ true = ground arith in
        (sym (equal_ℤ-eq d.downloads d.counted full), ground arith)

    stays :
        IsSettled d
        → (ltb d.date today && equal_ℤ d.downloads d.counted && not d.processed) ≡ false
        → IsDone today before d
    stays (inl p) h = inl (p, m)
    stays (inr e) h =
        let full : equal_ℤ d.downloads d.counted ≡ true =
          subst (λ n. equal_ℤ d.downloads n ≡ true) (sym e) (equal_ℤ-refl d.downloads) in
        elim (Bool-cases d.processed) [ inl p ↦ inl (p, m) | inr p ↦ inr (e, ground arith) ]

freeze-IsDone :
    (today : ℕ) (before rows : List VersionDownload)
    → All (λ d. Any (λ y. flags y ≡ flags d) before) rows
    → All IsSettled rows
    → All (IsDone today before) (map (freeze_row today) rows)
freeze-IsDone today before [] m h = tt
freeze-IsDone today before (d ∷ rows) m h =
    (freeze_row-IsDone today before d m.0 h.0, freeze-IsDone today before rows m.1 h.1)

pub finish-IsDone :
    (conn : Conn) (today : ℕ) (before : List VersionDownload)
    (r : Result Error (Unit {0}) × Database)
    → All (λ d. Any (λ y. flags y ≡ flags d) before) r.1.version_downloads
    → (r.0 ≡ ok tt → All IsSettled r.1.version_downloads)
    → (finish conn today r).0 ≡ ok tt
    → All (IsDone today before) (finish conn today r).1.version_downloads
unfolding finish
finish-IsDone conn today before (err e, db) m h k = cc
finish-IsDone conn today before (ok _, db) m h k =
    let frozen = freeze-IsDone today before db.version_downloads m (h refl) in
    elim (Bool-cases conn.freeze) [
      | inl e ↦ elim (Bool-cases conn.refresh) [
        | inl e' ↦ simp (e, e') frozen
        | inr e' ↦ absurd (cc)
      ]
      | inr e ↦ absurd (cc)
    ]
