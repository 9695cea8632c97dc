-- ===== src/Updating/Steps.antt =====
-- What a transaction of the job leaves behind when it succeeds.
use cargo_website.Base.{
  ◌≡◌, ◌∙◌, refl, sym, subst, ap, map, inl, inr, Bool, true, List, [], ◌∷◌, some, ◌==◌, find, any,
  arith, Bool-cases, Result, ok, guard, ok_or, bind-eq-ok, ok_injective, ok_or-eq-ok,
}
use cargo_website.Base.Int.{ℤ, pos, ◌+ℤ◌, +ℤ_assoc, int_laws}
use cargo_website.Updating.{
  Error, VersionDownload, Version, Database, Conn, not_found, out_of_range, query_failed, versions,
  crates, metadata, version_downloads, commit, fits_i64, sub_i32, update_found, same_id,
  add_to_version, add_to_crate, add_to_counted, propagate,
}

abbrev pub sum {ℓ} : {A : Type ℓ} → (A → ℤ) → List A → ℤ
sum w [] = pos 0
sum w (x ∷ xs) = w x +ℤ sum w xs

swap_right : (a b c : ℤ) → a +ℤ b +ℤ c ≡ a +ℤ c +ℤ b
swap_right a b c = omega int_laws

-- A row that is found and gains `amount` adds it to a sum over the rows.
pub sum-update_found {ℓ} :
    {A : Type ℓ} (w : A → ℤ) (is_key : A → Bool) (change : A → Result Error A) (amount : ℤ)
    → ((x x' : A) → is_key x ≡ true → change x ≡ ok x' → w x' ≡ w x +ℤ amount)
    → (xs : List A) {xs' : List A} → any is_key xs ≡ true
    → update_found is_key change xs ≡ ok xs'
    → sum w xs' ≡ sum w xs +ℤ amount
unfolding update_found
sum-update_found w is_key change amount gain [] h e = cc
sum-update_found w is_key change amount gain (x ∷ xs) {xs'} h e = elim (Bool-cases (is_key x)) [
  | inl k ↦
      let (x', changed, is) = bind-eq-ok (change x) _ (rw (update_found, k) at e) in
      let here = gain x x' k changed in
      subst (λ z. sum w z ≡ sum w (x ∷ xs) +ℤ amount) (ok_injective is)
        (ap (λ z. z +ℤ sum w xs) here ∙ swap_right (w x) amount (sum w xs))
  | inr k ↦
      let (ys, later, is) =
        bind-eq-ok (update_found is_key change xs) _ (rw (update_found, k) at e) in
      let there = sum-update_found w is_key change amount gain xs (ground arith) later in
      subst (λ z. sum w z ≡ sum w (x ∷ xs) +ℤ amount) (ok_injective is)
        (ap (λ z. w x +ℤ z) there ∙ sym (+ℤ_assoc (w x) (sum w xs) amount))
]

-- What a table keeps if a change of a row keeps it.
pub update_found-keeps {ℓ κ} :
    {A : Type ℓ} {B : Type κ} (view : A → B) (is_key : A → Bool) (change : A → Result Error A)
    → ((x x' : A) → change x ≡ ok x' → view x' ≡ view x)
    → (xs : List A) {xs' : List A} → update_found is_key change xs ≡ ok xs'
    → map view xs' ≡ map view xs
unfolding update_found
update_found-keeps view is_key change keep [] e = subst (λ z. map view z ≡ []) (ok_injective e) refl
update_found-keeps view is_key change keep (x ∷ xs) e = elim (Bool-cases (is_key x)) [
  | inl k ↦
      let (x', changed, is) = bind-eq-ok (change x) _ (rw (update_found, k) at e) in
      let here = keep x x' changed in
      subst (λ z. map view z ≡ map view (x ∷ xs)) (ok_injective is) (rw here refl)
  | inr k ↦
      let (ys, later, is) =
        bind-eq-ok (update_found is_key change xs) _ (rw (update_found, k) at e) in
      let there = update_found-keeps view is_key change keep xs later in
      subst (λ z. map view z ≡ map view (x ∷ xs)) (ok_injective is) (rw there refl)
]

pub record IsPropagated (d : VersionDownload) (db db' : Database) : Type 0 where
  pub version : Version
  pub found : find (λ v. v.id == d.version_id) db.versions ≡ some version
  pub versions_are :
      update_found
        (λ v. v.id == d.version_id)
        (add_to_version (sub_i32 d.downloads d.counted))
        db.versions
      ≡ ok db'.versions
  pub crates_are :
      update_found
        (λ c. c.id == version.crate_id)
        (add_to_crate (sub_i32 d.downloads d.counted))
        db.crates
      ≡ ok db'.crates
  pub total_is : db'.total_downloads ≡ db.total_downloads +ℤ sub_i32 d.downloads d.counted
  pub rows_are :
      update_found (same_id d) (add_to_counted (sub_i32 d.downloads d.counted)) db.version_downloads
      ≡ ok db'.version_downloads

pub propagate-IsPropagated :
    (conn : Conn) (d : VersionDownload) (db db' : Database)
    → propagate conn d db ≡ ok db'
    → IsPropagated d db db'
unfolding propagate
propagate-IsPropagated conn d db db' h =
    let amt = sub_i32 d.downloads d.counted in
    let (_, _, h1) = bind-eq-ok (guard (conn.execute d versions) query_failed) _ h in
    let (v, e2, h2) = bind-eq-ok (ok_or (find _ db.versions) not_found) _ h1 in
    let (vs, e3, h3) = bind-eq-ok (update_found _ (add_to_version amt) db.versions) _ h2 in
    let (_, _, h4) = bind-eq-ok (guard (conn.execute d crates) query_failed) _ h3 in
    let (cs, e5, h5) = bind-eq-ok (update_found _ (add_to_crate amt) db.crates) _ h4 in
    let (_, _, h6) = bind-eq-ok (guard (conn.execute d metadata) query_failed) _ h5 in
    let (_, _, h7) = bind-eq-ok (guard (fits_i64 (db.total_downloads +ℤ amt)) out_of_range) _ h6 in
    let (_, _, h8) = bind-eq-ok (guard (conn.execute d version_downloads) query_failed) _ h7 in
    let (rows, e9, h9) =
      bind-eq-ok (update_found _ (add_to_counted amt) db.version_downloads) _ h8 in
    let (_, _, h10) = bind-eq-ok (guard (conn.execute d commit) query_failed) _ h9 in
    subst (λ z. IsPropagated d db z) (ok_injective h10)
      (record {
        version = v;
        found = ok_or-eq-ok _ _ v e2;
        versions_are = e3;
        crates_are = e5;
        total_is = refl;
        rows_are = e9;
      })
