-- ===== src/Publish/Updated.antt =====
-- What the update of a crate by an upload changes of the rows: src/models/krate.rs.
use cargo_website.Base.{
  ℕ, ◌≡◌, inl, inr, refl, sym, ap, ◌∙◌, arith, Bool, true, List, [], ◌∷◌, map, Option, some, find,
  filter, not, Any, Bool-cases,
}
use cargo_website.Base.Int.{ℤ}
use cargo_website.Base.Text.{Text}
use cargo_website.Publish.Tables.{Crate}
use cargo_website.Publish.Crates.{NewCrate, same_name, update, update_existing}

injective : {A : Type 0} {a b : A} → some a ≡ some b → a ≡ b
injective h = ground arith

-- What is found in a mapped list, where the map keeps the test.
find-map :
    {A : Type 0} (p : A → Bool) (f : A → A)
    → ((x : A) → p (f x) ≡ p x)
    → (xs : List A) (y : A) → find p (map f xs) ≡ some y
    → (x : A) × Any (λ z. z ≡ x) xs × Any (λ z. z ≡ y) (map f xs) × (f x ≡ y) × (p x ≡ true)
find-map p f keeps [] y h = cc
find-map p f keeps (x ∷ xs) y h = elim (Bool-cases (p x)) [
  | inl e ↦
      let found : find p (map f (x ∷ xs)) ≡ some (f x) = rw (find, keeps x, e) refl in
      let same : f x ≡ y = injective (sym found ∙ h) in (x, inl refl, inl same, same, e)
  | inr e ↦
      let rest : find p (map f (x ∷ xs)) ≡ find p (map f xs) = rw (find, keeps x, e) refl in
      let (old, before, after, is, is_p) = find-map p f keeps xs y (sym rest ∙ h) in
      (old, inr before, inr after, is, is_p)
]

-- The part of a crate that only its creation sets.
abbrev pub fixed : Crate → ℕ × Text × Option ℤ
fixed c = (c.id, c.name, c.max_upload_size)

module _ (lower : Text → Text) (self : NewCrate) where
  fixed-update_existing : (c : Crate) → fixed (update_existing lower self c) ≡ fixed c
  unfolding update_existing update
  fixed-update_existing c = elim (Bool-cases (same_name lower c.name self.name)) [
    | inl e ↦ rw e refl
    | inr e ↦ rw e refl
  ]

  pub map-fixed : (cs : List Crate) → map fixed (map (update_existing lower self) cs) ≡ map fixed cs
  map-fixed [] = refl
  map-fixed (c ∷ cs) = rw (fixed-update_existing c, map-fixed cs) refl

  pub name-update_existing : (c : Crate) → (update_existing lower self c).name ≡ c.name
  name-update_existing c = ap (λ (t : ℕ × Text × Option ℤ). t.1) (fixed-update_existing c)

  -- The rows that no update is about.
  abbrev pub others : List Crate → List Crate
  others cs = filter (λ c. not (same_name lower c.name self.name)) cs

  pub others-update_existing :
      (cs : List Crate) → others (map (update_existing lower self) cs) ≡ others cs
  unfolding update_existing
  others-update_existing [] = refl
  others-update_existing (c ∷ cs) = elim (Bool-cases (same_name lower c.name self.name)) [
    | inl e ↦ rw (filter, name-update_existing c, e) (others-update_existing cs)
    | inr e ↦
        rw (filter, name-update_existing c, e, update_existing, e)
          (ap (λ z. c ∷ z) (others-update_existing cs))
  ]

  -- A row of a crate after the upload: what the upload sets of it, and what it was before.
  abbrev pub uploaded : Crate → Crate
  uploaded old = record old {
    description = self.description;
    homepage = self.homepage;
    documentation = self.documentation;
    readme = self.readme;
    repository = self.repository;
  }

  -- The row that the update returns, and the one that it was made of.
  pub find-update_existing :
      (cs : List Crate) (krate : Crate)
      → find (λ c. same_name lower c.name self.name) (map (update_existing lower self) cs)
        ≡ some krate
      → (old : Crate) × Any (λ c. c ≡ old) cs
        × Any (λ c. c ≡ krate) (map (update_existing lower self) cs)
        × (krate ≡ uploaded old)
  unfolding update_existing update
  find-update_existing cs krate h =
      let (old, before, after, is, is_named) =
        find-map (λ (c : Crate). same_name lower c.name self.name) (update_existing lower self)
          (λ c. rw (name-update_existing c) refl) cs krate h in
      let step : update_existing lower self old ≡ uploaded old = rw is_named refl in
      (old, before, after, sym is ∙ step)
