-- ===== src/Metrics/Chunked.antt =====
-- The chunks hold all items, in their order, and each ends as soon as it is long enough.
use mathlib.Core.List.{append_assoc, append-nil}
use cargo_website.Base.{
  ℕ, zero, suc, ◌≤◌, ◌<◌, ◌≡◌, ◌∙◌, refl, sym, ap, subst, ◌⊎◌, inl, inr, true, List, [], ◌∷◌, ◌++◌,
  map, length, length-append, leb, leb→le, Bool-cases, ok, all, arith, and_left, and_right,
}
use cargo_website.Metrics.{Serializer, fill_chunk, split_items, serialize_and_split_list}

abbrev pub concat {ℓ} : {A : Type ℓ} → List (List A) → List A
concat [] = []
concat (chunk ∷ chunks) = chunk ++ concat chunks

module _ {A : Type 0} (s : Serializer A) (max : ℕ) where
  -- The items that are added to `before` stay short of the limit.
  abbrev IsShort : List A → List A → Type 0
  IsShort before [] = Unit
  IsShort before (x ∷ xs) =
      (s.written_count (before ++ x ∷ []) < max) × IsShort (before ++ x ∷ []) xs

  -- The last of them reaches it.
  abbrev IsFull : List A → List A → Type 0
  IsFull before [] = ⊥
  IsFull before (x ∷ []) = max ≤ s.written_count (before ++ x ∷ [])
  IsFull before (x ∷ y ∷ xs) =
      (s.written_count (before ++ x ∷ []) < max) × IsFull (before ++ x ∷ []) (y ∷ xs)

  abbrev IsNonempty : List A → Type 0
  IsNonempty [] = ⊥
  IsNonempty (_ ∷ _) = Unit

  -- All chunks but the last one are full, the last one is full or short, none is empty.
  abbrev pub AreChunks : List (List A) → Type 0
  AreChunks [] = Unit
  AreChunks (chunk ∷ []) = IsNonempty chunk × (IsFull [] chunk ⊎ IsShort [] chunk)
  AreChunks (chunk ∷ next ∷ chunks) = IsNonempty chunk × IsFull [] chunk × AreChunks (next ∷ chunks)

  -- What the inner loop adds to a chunk, and what it leaves.
  record IsFilled (before items chunk rest : List A) : Type 0 where
    added : List A
    is : chunk ≡ before ++ added
    all_items : added ++ rest ≡ items
    ended : IsFull before added ⊎ (IsShort before added × (rest ≡ []))
    some_item : IsNonempty items → IsNonempty added
    serializable : all s.serializes rest ≡ true

  IsFull-cons :
      (before : List A) (x : A) (xs rest : List A)
      → s.written_count (before ++ x ∷ []) < max
      → IsFull (before ++ x ∷ []) xs ⊎ (IsShort (before ++ x ∷ []) xs × (rest ≡ []))
      → IsFull before (x ∷ xs) ⊎ (IsShort before (x ∷ xs) × (rest ≡ []))
  IsFull-cons before x [] rest h (inl k) = elim k [ ]
  IsFull-cons before x (y ∷ xs) rest h (inl k) = inl (h, k)
  IsFull-cons before x xs rest h (inr (k, e)) = inr ((h, k), e)

  fill_chunk-IsFilled :
      (before items : List A)
      → all s.serializes items ≡ true
      → (chunk rest : List A) × (fill_chunk s max before items ≡ ok (chunk, rest))
        × IsFilled before items chunk rest
  unfolding fill_chunk
  fill_chunk-IsFilled before [] g = (
    before,
    [],
    refl,
    record {
      added = [];
      is = sym (append-nil before);
      all_items = refl;
      ended = inr (tt, refl);
      some_item = λ n. n;
      serializable = refl;
    },
  )
  fill_chunk-IsFilled before (x ∷ xs) g =
      let this = and_left (s.serializes x) (all s.serializes xs) g in
      let others = and_right (s.serializes x) (all s.serializes xs) g in
      elim (Bool-cases (leb max (s.written_count (before ++ x ∷ [])))) [
        | inl e ↦ (
          before ++ x ∷ [],
          xs,
          rw (fill_chunk, this, e) refl,
          record {
            added = x ∷ [];
            is = refl;
            all_items = refl;
            ended = inl (leb→le max (s.written_count (before ++ x ∷ [])) e);
            some_item = λ n. tt;
            serializable = others;
          },
        )
        | inr e ↦
            let (chunk, rest, filled, f) = fill_chunk-IsFilled (before ++ x ∷ []) xs others in
            (
              chunk,
              rest,
              rw (fill_chunk, this, e) filled,
              record {
                added = x ∷ f.added;
                is = f.is ∙ append_assoc before (x ∷ []) f.added;
                all_items = ap (λ z. x ∷ z) f.all_items;
                ended = IsFull-cons before x f.added rest (ground arith) f.ended;
                some_item = λ n. tt;
                serializable = f.serializable;
              },
            )
      ]

  chunks_cons :
      (chunk : List A) (chunks : List (List A)) (rest : List A)
      → IsNonempty chunk
      → IsFull [] chunk ⊎ (IsShort [] chunk × (rest ≡ []))
      → concat chunks ≡ rest
      → AreChunks chunks
      → AreChunks (chunk ∷ chunks)
  chunks_cons chunk [] rest n (inl f) e h = (n, inl f)
  chunks_cons chunk [] rest n (inr (f, _)) e h = (n, inr f)
  chunks_cons chunk (next ∷ chunks) rest n (inl f) e h = (n, f, h)
  chunks_cons chunk ([] ∷ []) rest n (inr (f, g)) e h = elim h.0 [ ]
  chunks_cons chunk ([] ∷ next ∷ chunks) rest n (inr (f, g)) e h = elim h.0 [ ]
  chunks_cons chunk ((x ∷ xs) ∷ chunks) rest n (inr (f, g)) e h = absurd (cc)

  split_items-AreChunks :
      (fuel : ℕ) (items : List A)
      → length items ≤ fuel
      → all s.serializes items ≡ true
      → (chunks : List (List A)) × (split_items s max fuel items ≡ ok chunks)
        × (concat chunks ≡ items)
        × AreChunks chunks
  unfolding split_items
  split_items-AreChunks fuel [] h g = ([], refl, refl, tt)
  split_items-AreChunks zero (x ∷ xs) h g = absurd (omega arith)
  split_items-AreChunks (suc fuel) (x ∷ xs) h g =
      let (chunk, rest, filled, f) = fill_chunk-IsFilled [] (x ∷ xs) g in
      let nonempty = f.some_item tt in
      let fewer = shorter f.added rest xs x nonempty f.all_items in
      let (chunks, done, all_there, are) =
        split_items-AreChunks fuel rest (omega arith) f.serializable in
      (
        chunk ∷ chunks,
        rw (split_items, filled, done) refl,
        ap (λ z. z ++ concat chunks) f.is ∙ ap (λ z. f.added ++ z) all_there ∙ f.all_items,
        chunks_cons chunk chunks rest (subst IsNonempty (sym f.is) nonempty)
            (subst (λ z. IsFull [] z ⊎ (IsShort [] z × (rest ≡ []))) (sym f.is) f.ended) all_there
            are,
      )
    where
      shorter :
          (added rest xs : List A) (x : A)
          → IsNonempty added
          → added ++ rest ≡ x ∷ xs
          → length rest ≤ length xs
      shorter [] rest xs x n e = elim n [ ]
      shorter (y ∷ added) rest xs x n e =
          let sizes = ap length e in omega (arith, length-append added rest, sizes)

-- If each item can be serialized then the list is: into chunks that hold all items in their order,
-- none of them empty, of which each but the last has as many bytes as the limit and had fewer
-- before its last item was written, while the last may stay below the limit.
pub serialize_and_split_list-AreChunks :
    {A : Type 0} (s : Serializer A) (max_size_hint : ℕ) (items : List A)
    → all s.serializes items ≡ true
    → (chunks : List (List A)) × (serialize_and_split_list s max_size_hint items
        ≡ ok (map s.end chunks))
      × (concat chunks ≡ items)
      × AreChunks s max_size_hint chunks
unfolding serialize_and_split_list
serialize_and_split_list-AreChunks s max_size_hint items g =
    let (chunks, done, all_there, are) =
      split_items-AreChunks s max_size_hint (length items) items (omega arith) g in
    (chunks, rw (serialize_and_split_list, done) refl, all_there, are)
