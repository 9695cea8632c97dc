-- ===== src/Index/Lines.antt =====
-- The text of a file of the index, and its lines.
use mathlib.Core.List.{append_assoc}
use cargo_website.Base.{
  ◌≡◌, ◌≢◌, refl, ap, ◌∙◌, arith, Bool, not, ◌||◌, List, [], ◌∷◌, ◌++◌, map, Option, some, ok, ◌==◌,
  All, All-map, Bool-cases, inl, inr,
}
use cargo_website.Base.Splitting.{split-first}
use cargo_website.Base.Text.{Text, codes, text_eq, split}
use cargo_website.Publish.Tables.{IndexCrate}
use cargo_website.Index.Jobs.{
  Codec, strip_cr, without_last_empty, lines, join_lines, mark, add_line, yank_line, yank_lines,
  yank_text,
}

-- No line ends inside.
abbrev pub IsPlain : Text → Type 0
IsPlain s = All (λ c. (c ≢ b'\n') × (c ≢ b'\r')) s

-- What serde_json keeps to for an entry, yanked or not: its line is read as what was written, and
-- control characters are escaped.
abbrev pub Reads : Codec → IndexCrate → Type 0
Reads codec c =
    (b : Option Bool)
    → (codec.decode (codec.encode (record c { yanked = b })) ≡ some (record c { yanked = b }))
      × IsPlain (codec.encode (record c { yanked = b }))

abbrev pub text_of : Codec → List IndexCrate → Text
text_of codec [] = []
text_of codec (c ∷ cs) = codec.encode c ++ b'\n' ∷ text_of codec cs

strip_cr-plain : (s : Text) → IsPlain s → strip_cr s ≡ s
unfolding strip_cr
strip_cr-plain [] h = refl
strip_cr-plain (c ∷ []) h = elim (Bool-cases (c == b'\r')) [
  | inl e ↦ absurd (h.0.1 (ground arith))
  | inr e ↦ rw e refl
]
strip_cr-plain (c ∷ d ∷ s) h = ap (λ t. c ∷ t) (strip_cr-plain (d ∷ s) h.1)

without_last_empty-append : (ls : List Text) → without_last_empty (ls ++ [] ∷ []) ≡ ls
unfolding without_last_empty
without_last_empty-append [] = refl
without_last_empty-append (l ∷ []) = refl
without_last_empty-append (l ∷ m ∷ ls) = ap (λ t. l ∷ t) (without_last_empty-append (m ∷ ls))

module _ (codec : Codec) where
  split-text_of :
      (cs : List IndexCrate)
      → All (Reads codec) cs
      → split b'\n' (text_of codec cs) ≡ map codec.encode cs ++ [] ∷ []
  unfolding split
  split-text_of [] h = refl
  split-text_of (c ∷ cs) h =
      split-first b'\n' (codec.encode c) (text_of codec cs)
        (All-map (λ x k. k.0) (codec.encode c) (h.0 c.yanked).1)
      ∙ ap (λ t. codec.encode c ∷ t) (split-text_of cs h.1)

  map-strip_cr :
      (cs : List IndexCrate)
      → All (Reads codec) cs
      → map strip_cr (map codec.encode cs) ≡ map codec.encode cs
  map-strip_cr [] h = refl
  map-strip_cr (c ∷ cs) h =
      rw (strip_cr-plain (codec.encode c) (h.0 c.yanked).1, map-strip_cr cs h.1) refl

  lines-text_of :
      (cs : List IndexCrate) → All (Reads codec) cs → lines (text_of codec cs) ≡ map codec.encode cs
  unfolding lines
  lines-text_of cs h =
      rw (split-text_of cs h, without_last_empty-append (map codec.encode cs)) (map-strip_cr cs h)

  join_lines-text_of :
      (c : IndexCrate) (cs : List IndexCrate)
      → join_lines (map codec.encode (c ∷ cs)) ++ codes "\n" ≡ text_of codec (c ∷ cs)
  unfolding join_lines
  join_lines-text_of c [] = refl
  join_lines-text_of c (d ∷ cs) =
      append_assoc (codec.encode c) (b'\n' ∷ join_lines (map codec.encode (d ∷ cs))) (codes "\n")
      ∙ ap (λ (t : Text). codec.encode c ++ b'\n' ∷ t) (join_lines-text_of d cs)

  pub add_line-text_of :
      (k : IndexCrate) (cs : List IndexCrate)
      → add_line codec k (text_of codec cs) ≡ text_of codec (cs ++ k ∷ [])
  unfolding add_line
  add_line-text_of k [] = refl
  add_line-text_of k (c ∷ cs) =
      let t = text_of codec cs in
      ap (λ (x : Text). x ++ codes "\n")
        (append_assoc (codec.encode c) (b'\n' ∷ t) (codec.encode k))
      ∙ append_assoc (codec.encode c) (b'\n' ∷ t ++ codec.encode k) (codes "\n")
      ∙ ap (λ (x : Text). codec.encode c ++ b'\n' ∷ x) (add_line-text_of k cs)

  yank_line-encode :
      (krate vers : Text) (yanked : Bool) (c : IndexCrate)
      → Reads codec c
      → yank_line codec krate vers yanked (codec.encode c)
        ≡ ok (codec.encode (mark krate vers yanked c))
  unfolding yank_line
  yank_line-encode krate vers yanked c h =
      rw (yank_line, (h c.yanked).0)
        (elim (Bool-cases (not (text_eq c.name krate) || not (text_eq c.vers vers))) [
          | inl e ↦ rw e refl
          | inr e ↦ rw e refl
        ])

  yank_lines-encode :
      (krate vers : Text) (yanked : Bool) (cs : List IndexCrate)
      → All (Reads codec) cs
      → yank_lines codec krate vers yanked (map codec.encode cs)
        ≡ ok (map codec.encode (map (mark krate vers yanked) cs))
  unfolding yank_lines
  yank_lines-encode krate vers yanked [] h = refl
  yank_lines-encode krate vers yanked (c ∷ cs) h =
      rw (yank_line-encode krate vers yanked c h.0, yank_lines-encode krate vers yanked cs h.1) refl

  pub yank_text-text_of :
      (krate vers : Text) (yanked : Bool) (c : IndexCrate) (cs : List IndexCrate)
      → All (Reads codec) (c ∷ cs)
      → yank_text codec krate vers yanked (text_of codec (c ∷ cs))
        ≡ ok (text_of codec (map (mark krate vers yanked) (c ∷ cs)))
  unfolding yank_text
  yank_text-text_of krate vers yanked c cs h =
      rw (lines-text_of (c ∷ cs) h, yank_lines-encode krate vers yanked (c ∷ cs) h)
        (ap ok (join_lines-text_of (mark krate vers yanked c) (map (mark krate vers yanked) cs)))
