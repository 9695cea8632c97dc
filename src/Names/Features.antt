-- ===== src/Names/Features.antt =====
-- `valid_feature`: the two shapes of a feature, `name` and `dependency/name`.
use mathlib.Core.Bool.{false≢true}
use cargo_website.Base.{
  ℕ, ◌≡◌, ◌≢◌, ◌⊎◌, ◌↔◌, true, false, List, [], ◌∷◌, ◌++◌, refl, ap, sym, ◌∙◌, ◌&&◌, arith, ◌==◌,
  All, inl, inr, and_left, and_right, and_intro, ==_iff, Bool-cases,
}
use cargo_website.Base.Text.{Text, split}
use cargo_website.Names.{valid_feature, valid_feature_name, valid_feature_prefix}
use cargo_website.Names.Rules.{
  IsNameChar, IsFeatureChar, IsFeaturePrefix, IsFeatureName, IsFeaturePrefix-iff, IsFeatureName-iff,
}

-- Splitting gives the text itself, if it does not hold the separator, or the part in front of the
-- first separator and then the parts of the rest.
data Splits (sep : ℕ) (s : Text) : Type 0 where
  whole : split sep s ≡ s ∷ [] → Splits sep s
  cut : (p n : Text) → s ≡ p ++ sep ∷ n → split sep s ≡ p ∷ split sep n → Splits sep s

prepend-Splits : (sep c : ℕ) (s : Text) → (c == sep) ≡ false → Splits sep s → Splits sep (c ∷ s)
unfolding split
prepend-Splits sep c s h (whole e) = whole (ground (arith, e))
prepend-Splits sep c s h (cut p n e f) = cut (c ∷ p) n (ground (arith, e)) (ground (arith, f))

split-Splits : (sep : ℕ) (s : Text) → Splits sep s
unfolding split
split-Splits sep [] = whole refl
split-Splits sep (c ∷ s) = elim (Bool-cases (c == sep)) [
  | inl same ↦ cut [] s (ground (arith, (==_iff c sep).0 same)) (rw same)
  | inr other ↦ prepend-Splits sep c s other (split-Splits sep s)
]

-- A text has at least one part, so three parts leave one after two calls of `next_back`.
split-ne-nil : (sep : ℕ) (s : Text) → split sep s ≢ []
split-ne-nil sep s = elim (split-Splits sep s) [
  | whole e ↦ rw e (λ h. cc)
  | cut p n e f ↦ rw f (λ h. cc)
]

pub IsFeature : Text → Type 0
IsFeature s =
    IsFeatureName s ⊎ ((p n : Text) × (s ≡ p ++ b'/' ∷ n) × IsFeaturePrefix p × IsFeatureName n)

valid_feature-whole : (s : Text) → split b'/' s ≡ s ∷ [] → valid_feature s ≡ valid_feature_name s
unfolding valid_feature
valid_feature-whole s e = rw e (ground arith)

valid_feature-cut :
    (s p n : Text)
    → split b'/' s ≡ p ∷ n ∷ []
    → valid_feature s ≡ (valid_feature_name n && valid_feature_prefix p)
unfolding valid_feature
valid_feature-cut s p n e = rw e (ground arith)

valid_feature-many :
    (s p q : Text) (rest : List Text)
    → rest ≢ []
    → split b'/' s ≡ p ∷ q ∷ rest
    → valid_feature s ≡ false
unfolding valid_feature
valid_feature-many s p q [] h e = absurd (h refl)
valid_feature-many s p q (r ∷ rest) h e = rw e

-- A feature name holds no slash, so it is one part.
feature_char_ne_slash : (c : ℕ) → IsFeatureChar c → (c == b'/') ≡ false
feature_char_ne_slash c h = ground arith

split-IsFeatureName : (s : Text) → All IsFeatureChar s → split b'/' s ≡ s ∷ []
unfolding split
split-IsFeatureName [] h = refl
split-IsFeatureName (c ∷ s) h = rw (feature_char_ne_slash c h.0, split-IsFeatureName s h.1)

split-IsFeaturePrefix :
    (p n : Text) → All IsNameChar p → split b'/' (p ++ b'/' ∷ n) ≡ p ∷ split b'/' n
unfolding split
split-IsFeaturePrefix [] n h = refl
split-IsFeaturePrefix (c ∷ p) n h =
    rw (feature_char_ne_slash c (inl h.0), split-IsFeaturePrefix p n h.1)

valid_feature_sound : (s : Text) → valid_feature s ≡ true → IsFeature s
unfolding IsFeature
valid_feature_sound s h = elim (split-Splits b'/' s) [
  | whole e ↦ inl ((IsFeatureName-iff s).0 (rw (valid_feature-whole s e) at h))
  | cut p n e f ↦ elim (split-Splits b'/' n) [
    | whole g ↦
        let k = rw (valid_feature-cut s p n (f ∙ ap (◌∷◌ p) g)) at h in
        inr (
          p,
          n,
          e,
          (IsFeaturePrefix-iff p).0 (and_right _ _ k),
          (IsFeatureName-iff n).0 (and_left _ _ k),
        )
    | cut q m _ g ↦
        absurd (
          false≢true
            (sym (valid_feature-many s p q _ (split-ne-nil b'/' m) (f ∙ ap (◌∷◌ p) g)) ∙ h))
  ]
]

-- A feature is accepted exactly if it is a feature name, or a dependency's name, a slash and a
-- feature name.
pub valid_feature_iff : (s : Text) → (valid_feature s ≡ true) ↔ IsFeature s
unfolding IsFeature
valid_feature_iff s = (
  valid_feature_sound s,
  λ h. elim h [
    | inl k ↦ rw (valid_feature-whole s (split-IsFeatureName s k.1)) ((IsFeatureName-iff s).1 k)
    | inr (p, n, e, hp, hn) ↦
        rw
          (valid_feature-cut s p n
            (rw (e, split-IsFeaturePrefix p n hp.1, split-IsFeatureName n hn.1)))
          (and_intro _ _ ((IsFeatureName-iff n).1 hn) ((IsFeaturePrefix-iff p).1 hp))
  ],
)
