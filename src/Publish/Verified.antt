-- ===== src/Publish/Verified.antt =====
-- Which tarballs pass the check.
use cargo_website.Base.{
  ℕ, ◌≡◌, ◌≢◌, ◌↔◌, refl, ap, ◌∙◌, subst, arith, Bool, true, false, not, List, [], ◌∷◌, ◌++◌,
  Option, none, some, Result, ok, err, ◌==◌, if◌then◌else◌, All, All-map, All-append, bind-eq-ok,
}
use cargo_website.Base.Splitting.{split-whole}
use cargo_website.Base.Text.{Text, codes, text_eq, text_eq_iff, text_eq_refl, split}
use cargo_website.Base.Paths.{
  Component, root_dir, cur_dir, parent_dir, normal, part_components, relative, components,
  component_eq, path_starts_with,
}
use cargo_website.Names.Rules.{IsCrateName, IsLetter, IsNameChar}
use cargo_website.Publish.Tables.{Crate, Error, invalid_tarball, unreadable_archive}
use cargo_website.Publish.Tarballs.{
  Libraries, Entry, malformed, entry, EntryType, is_link, check_entry, check_entries, prefix_of,
  verify_tarball,
}

letter-not_special :
    (c : ℕ) (s : Text)
    → IsLetter c
    → (text_eq (c ∷ s) [] ≡ false)
      × (text_eq (c ∷ s) (codes ".") ≡ false)
      × (text_eq (c ∷ s) (codes "..") ≡ false)
unfolding text_eq
letter-not_special c s letter = (refl, ground arith, ground arith)

relative-letter : (c : ℕ) (s : Text) → IsLetter c → relative ((c ∷ s) ∷ []) ≡ normal (c ∷ s) ∷ []
unfolding relative part_components
relative-letter c s letter =
    let (not_empty, not_cur, not_parent) = letter-not_special c s letter in
    rw (not_empty, not_cur, not_parent) refl

-- A text that starts with a letter and has no slash is one component.
components-whole :
    (c : ℕ) (s : Text)
    → IsLetter c
    → All (λ c. c ≢ b'/') (c ∷ s)
    → components (c ∷ s) ≡ normal (c ∷ s) ∷ []
unfolding components
components-whole c s letter h =
    let not_slash : (c == b'/') ≡ false = ground arith in
    let step : components (c ∷ s) ≡ relative (split b'/' (c ∷ s)) =
      rw (components, not_slash) refl in
    step ∙ ap relative (split-whole b'/' (c ∷ s) h) ∙ relative-letter c s letter

abbrev pub IsInside : Text → Entry → Type 0
IsInside prefix e =
    (path : Text) × (t : EntryType) × (inner : List Component) × (e ≡ entry (some path) t)
    × (components path ≡ normal prefix ∷ inner)
    × (is_link t ≡ false)

path_starts_with-one :
    (path : List Component) (p : Text)
    → (path_starts_with path (normal p ∷ []) ≡ true)
      ↔ ((inner : List Component) × (path ≡ normal p ∷ inner))
unfolding path_starts_with component_eq
path_starts_with-one [] p = (λ h. cc, λ h. cc)
path_starts_with-one (root_dir ∷ path) p = (λ h. cc, λ h. cc)
path_starts_with-one (cur_dir ∷ path) p = (λ h. cc, λ h. cc)
path_starts_with-one (parent_dir ∷ path) p = (λ h. cc, λ h. cc)
path_starts_with-one (normal a ∷ path) p = (
  λ h.
      let same : a ≡ p = (text_eq_iff a p).0 (ground arith) in
      (path, ap (λ (q : Text). normal q ∷ path) same),
  λ h. let same : a ≡ p = ground arith in rw (same, text_eq_refl p) refl,
)

slash_free : (c : ℕ) → IsNameChar c → c ≢ b'/'
slash_free c h e = omega arith

components-prefix :
    (name vers : Text)
    → IsCrateName name
    → All (λ c. c ≢ b'/') vers
    → components (prefix_of name vers) ≡ normal (prefix_of name vers) ∷ []
unfolding prefix_of
components-prefix [] vers h k = elim h.0 [ ]
components-prefix (c ∷ name) vers h k = components-whole c (name ++ codes "-" ++ vers) h.0 (
    All-append (λ c. c ≢ b'/') (c ∷ name ++ codes "-") vers
      (All-append (λ c. c ≢ b'/') (c ∷ name) (codes "-") (All-map slash_free (c ∷ name) h.1)
        ((λ e. omega arith), tt))
      k)

accepted :
    (b c : Bool) (e f : Error)
    → (◌≡◌ {A = Result Error (Unit {0})}
        (if not b then err e else if c then err f else ok tt)
        (ok tt))
      ↔ ((b ≡ true) × (c ≡ false))
accepted false c e f = (λ h. cc, λ h. cc)
accepted true true e f = (λ h. cc, λ h. cc)
accepted true false e f = (λ h. (refl, refl), λ h. refl)

check_entry_iff :
    (prefix : Text) (e : Entry)
    → components prefix ≡ normal prefix ∷ []
    → (check_entry prefix e ≡ ok tt) ↔ IsInside prefix e
unfolding check_entry
check_entry_iff prefix malformed same = (λ h. cc, λ h. cc)
check_entry_iff prefix (entry none t) same = (λ h. cc, λ h. cc)
check_entry_iff prefix (entry (some path) t) same =
    let (f, g) =
      accepted (path_starts_with (components path) (components prefix)) (is_link t) invalid_tarball
        invalid_tarball in
    let (f', g') = path_starts_with-one (components path) prefix in
    (
      λ h.
          let (starts, no_link) = f h in
          let (inner, e) = f' (rw (← same) starts) in (path, t, inner, refl, e, no_link),
      λ (path', t', inner, e, e', no_link).
          let same_path : path' ≡ path = ground arith in
          let same_type : t' ≡ t = ground arith in
          g (rw same (g' (inner, rw (← same_path) e')), rw (← same_type) no_link),
    )

check_entries_iff :
    (prefix : Text) (es : List Entry)
    → components prefix ≡ normal prefix ∷ []
    → (check_entries prefix es ≡ ok tt) ↔ All (IsInside prefix) es
unfolding check_entries
check_entries_iff prefix [] same = (λ _. tt, λ _. refl)
check_entries_iff prefix (e ∷ es) same =
    let (f, g) = check_entry_iff prefix e same in
    let (f', g') = check_entries_iff prefix es same in
    (
      λ h. let (u, k, l) = bind-eq-ok (check_entry prefix e) _ h in (f k, f' l),
      λ h. rw (g h.0) (g' h.1),
    )

-- The tarball of a crate with a valid name and a version without a slash passes the check exactly if
-- the archive can be read, each entry has a path whose first component is the name, a dash and the
-- version, and no entry is a hard link or a symbolic link.
pub verify_tarball_iff :
    (lib : Libraries) (krate : Crate) (vers : Text) (tarball : List ℕ) (max_unpack : ℕ)
    → IsCrateName krate.name
    → All (λ c. c ≢ b'/') vers
    → (verify_tarball lib krate vers tarball max_unpack ≡ ok tt) ↔ (
        (es : List Entry) × (lib.entries
            (record { inner = lib.gz_decode tarball; limit = max_unpack })
          ≡ some es)
        × All (IsInside (prefix_of krate.name vers)) es)
unfolding verify_tarball
verify_tarball_iff lib krate vers tarball max_unpack valid no_slash =
    by_entries (lib.entries (record { inner = lib.gz_decode tarball; limit = max_unpack }))
  where
    by_entries :
        (o : Option (List Entry))
        → (elim o [
          | none ↦ err unreadable_archive
          | some es ↦ check_entries (prefix_of krate.name vers) es
        ]
            ≡ ok tt)
          ↔ ((es : List Entry) × (o ≡ some es) × All (IsInside (prefix_of krate.name vers)) es)
    by_entries none = (λ h. cc, λ h. cc)
    by_entries (some es) =
        let (f, g) =
          check_entries_iff (prefix_of krate.name vers) es
            (components-prefix krate.name vers valid no_slash) in
        (
          λ h. (es, refl, f h),
          λ (es', e, h).
              let same : es' ≡ es = ground arith in
              g (subst (All (IsInside (prefix_of krate.name vers))) same h),
        )
