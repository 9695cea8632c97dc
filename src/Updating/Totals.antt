-- ===== src/Updating/Totals.antt =====
-- The totals of src/tasks/update_downloads.rs and what is counted of them: what it means that no
-- download is lost or counted twice.
use cargo_website.Base.{
  ℕ, ◌≡◌, ◌∙◌, refl, ap, subst, Bool, true, false, ◌&&◌, List, [], ◌∷◌, map, ◌==◌, ==_iff,
  if◌then◌else◌, any, All,
}
use cargo_website.Base.Int.{ℤ, pos, pos_part, neg_part, ◌+ℤ◌, int_laws}
use cargo_website.Updating.{VersionDownload, Version, Crate, Database}
use cargo_website.Updating.Steps.{sum}

-- The versions with their crates, the crates, and the keys of the rows: no step changes them.
abbrev pub version_ids : Database → List (ℕ × ℕ)
version_ids db = map (λ (v : Version). (v.id, v.crate_id)) db.versions

abbrev pub crate_ids : Database → List ℕ
crate_ids db = map (λ (c : Crate). c.id) db.crates

abbrev pub row_ids : Database → List (ℕ × ℕ)
row_ids db = map (λ (d : VersionDownload). (d.version_id, d.date)) db.version_downloads

abbrev pub in_crate : List (ℕ × ℕ) → ℕ → ℕ → Bool
in_crate [] c v = false
in_crate ((id, crate_id) ∷ ids) c v = if id == v then crate_id == c else in_crate ids c v

abbrev pub select : Bool → ℤ → ℤ
select b n = elim b [ true ↦ n | false ↦ pos 0 ]

-- The total of a version or of a crate, and what the rows say is counted of it.
abbrev pub version_total : ℕ → Database → ℤ
version_total v db = sum (λ (x : Version). select (x.id == v) x.downloads) db.versions

abbrev pub crate_total : ℕ → Database → ℤ
crate_total c db = sum (λ (x : Crate). select (x.id == c) x.downloads) db.crates

abbrev pub counted_where : (ℕ → Bool) → Database → ℤ
counted_where p db =
    sum (λ (d : VersionDownload). select (p d.version_id) d.counted) db.version_downloads

-- Each total differs from what is counted of it by as much as before.
pub record IsConserved (db db' : Database) : Type 0 where
  pub versions :
      (v : ℕ)
      → version_total v db' +ℤ counted_where (λ id. id == v) db
        ≡ version_total v db +ℤ counted_where (λ id. id == v) db'
  pub crates :
      (c : ℕ)
      → crate_total c db' +ℤ counted_where (in_crate (version_ids db) c) db
        ≡ crate_total c db +ℤ counted_where (in_crate (version_ids db) c) db'
  pub total :
      db'.total_downloads +ℤ counted_where (λ _. true) db
      ≡ db.total_downloads +ℤ counted_where (λ _. true) db'
  pub same_versions : version_ids db' ≡ version_ids db
  pub same_crates : crate_ids db' ≡ crate_ids db
  pub same_rows : row_ids db' ≡ row_ids db

-- The foreign key of the versions.
abbrev pub HasCrates : Database → Type 0
HasCrates db = All (λ (v : ℕ × ℕ). any (λ c. c == v.1) (crate_ids db) ≡ true) (version_ids db)

-- The rows that are to be done are rows of the table.
abbrev pub AreStored : List VersionDownload → Database → Type 0
AreStored rows db =
    All
      (λ (d : VersionDownload).
        any (λ (k : ℕ × ℕ). d.version_id == k.0 && d.date == k.1) (row_ids db) ≡ true)
      rows

pub any-view :
    {A B : Type 0} (q : B → Bool) (view : A → B) (xs : List A)
    → any (λ x. q (view x)) xs ≡ any q (map view xs)
any-view q view [] = refl
any-view q view (x ∷ xs) = rw (any-view q view xs) refl

select_sum : (b : Bool) (n m : ℤ) → select b (n +ℤ m) ≡ select b n +ℤ select b m
unfolding ◌+ℤ◌
select_sum true n m = refl
select_sum false n m = refl

pub select_gain :
    (p : ℕ → Bool) (i j : ℕ) (n m : ℤ)
    → (i == j) ≡ true
    → select (p i) (n +ℤ m) ≡ select (p i) n +ℤ select (p j) m
select_gain p i j n m e =
    subst (λ k. select (p i) (n +ℤ m) ≡ select (p i) n +ℤ select (p k) m) ((==_iff i j).0 e)
      (select_sum (p i) n m)

pub both_gain : (a b : ℤ) {a' b' : ℤ} (x : ℤ) → a' ≡ a +ℤ x → b' ≡ b +ℤ x → a' +ℤ b ≡ a +ℤ b'
both_gain a b x e f = rw (e, f) (omega int_laws)

chain : (a b a' b' a'' b'' : ℤ) → a' +ℤ b ≡ a +ℤ b' → a'' +ℤ b' ≡ a' +ℤ b'' → a'' +ℤ b ≡ a +ℤ b''
chain a b a' b' a'' b'' e f =
    omega (int_laws, ap pos_part e, ap neg_part e, ap pos_part f, ap neg_part f)

pub IsConserved-refl : (db : Database) → IsConserved db db
IsConserved-refl db = record {
  versions = λ v. refl;
  crates = λ c. refl;
  total = refl;
  same_versions = refl;
  same_crates = refl;
  same_rows = refl;
}

pub IsConserved-trans : (a b c : Database) → IsConserved a b → IsConserved b c → IsConserved a c
IsConserved-trans a b c p q = record {
  versions = λ v.
      chain (version_total v a) (counted_where (λ id. id == v) a) (version_total v b)
        (counted_where (λ id. id == v) b) (version_total v c) (counted_where (λ id. id == v) c)
        (p.versions v) (q.versions v);
  crates = λ k.
      chain (crate_total k a) (counted_where (in_crate (version_ids a) k) a) (crate_total k b)
        (counted_where (in_crate (version_ids a) k) b) (crate_total k c)
        (counted_where (in_crate (version_ids a) k) c) (p.crates k)
        (subst
          (λ ids.
            crate_total k c +ℤ counted_where (in_crate ids k) b
            ≡ crate_total k b +ℤ counted_where (in_crate ids k) c)
          p.same_versions (q.crates k));
  total =
      chain a.total_downloads (counted_where (λ _. true) a) b.total_downloads
        (counted_where (λ _. true) b) c.total_downloads (counted_where (λ _. true) c) p.total
        q.total;
  same_versions = q.same_versions ∙ p.same_versions;
  same_crates = q.same_crates ∙ p.same_crates;
  same_rows = q.same_rows ∙ p.same_rows;
}
