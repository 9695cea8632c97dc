-- ===== src/Versions/Tests.antt =====
-- Versions of one digit, of which 2 is a prerelease.
use cargo_website.Base.{
  ℕ, ◌≡◌, refl, arith, not, List, [], ◌∷◌, Option, none, some, leb, ◌==◌, if◌then◌else◌,
}
use cargo_website.Base.Text.{Text, codes}
use cargo_website.Versions.{Semver, max_from, le_pair, parsed, version_of, from_date_version_pairs}
use cargo_website.Versions.Highest.{IsOrder, IsMax, from_date_version_pairs-IsMax}

abbrev digit : Text → Option ℕ
digit [] = none
digit (c ∷ _) = if leb b'0' c then (if leb c b'9' then some c else none) else none

abbrev semver : Semver ℕ
semver = record { parse = digit; le = leb; is_stable = λ v. not (v == b'2') }

abbrev pairs : List (ℕ × Text)
pairs = (5, codes "1") ∷ (6, codes "2") ∷ (7, codes "broken") ∷ (8, codes "0") ∷ []

tops :
    from_date_version_pairs semver pairs
    ≡ record { highest = some b'2'; highest_stable = some b'1'; newest = some b'0' }
unfolding from_date_version_pairs parsed max_from le_pair
tops = refl

leb-IsOrder : IsOrder leb
leb-IsOrder = record { total = λ x y. ground arith; transitive = λ x y z h k. ground arith }

from_date_version_pairs-IsMax_example :
    IsMax leb (b'1' ∷ b'2' ∷ b'0' ∷ []) (some b'2')
    × IsMax leb (b'1' ∷ b'0' ∷ []) (some b'1')
    × ((newest : Option (ℕ × ℕ)) × (some b'0' ≡ version_of semver newest)
        × IsMax (le_pair leb) ((5, b'1') ∷ (6, b'2') ∷ (8, b'0') ∷ []) newest)
unfolding from_date_version_pairs parsed max_from le_pair
from_date_version_pairs-IsMax_example = from_date_version_pairs-IsMax semver pairs leb-IsOrder
