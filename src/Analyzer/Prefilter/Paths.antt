-- ===== src/Analyzer/Prefilter/Paths.antt =====
-- `basename_of` and `printable` of analyzer/src/prefilter.cpp.
use pqc_edr.Base.{
  ℕ, ◌≡◌, ◌≢◌, refl, ap, ◌⊎◌, inl, inr, ◌||◌, Option, none, some, [], ◌∷◌, ◌++◌, All, ltb, ◌==◌,
  ==_iff, map, if◌then◌else◌, Bool-cases,
}
use pqc_edr.Base.Words.{Bytes}
use pqc_edr.Base.Text.{c_string}

-- `strrchr(path, '/') + 1`: what follows the last slash.
unfoldable pub after_last_slash : Bytes → Option Bytes
after_last_slash [] = none
after_last_slash (c ∷ cs) = elim (after_last_slash cs) [
  | some rest ↦ some rest
  | none ↦ if c == b'/' then some cs else none
]

unfoldable pub basename_of : Bytes → Bytes
unfolding after_last_slash
basename_of path = elim (after_last_slash path) [ some rest ↦ rest | none ↦ path ]

-- `printable(s, sizeof(s))`: the C string with each control character replaced by '?'.
unfoldable pub printable : Bytes → Bytes
printable s = map (λ c. if ltb c 0x20 || c == 0x7f then b'?' else c) (c_string s)

abbrev pub NoSlash : Bytes → Type 0
NoSlash = All (λ c. c ≢ b'/')

-- What the last slash of a path splits off: nothing after it is a slash.
data Splits (path : Bytes) : Option Bytes → Type 0 where
  whole : NoSlash path → Splits path none
  at_slash : (dir base : Bytes) → path ≡ dir ++ b'/' ∷ base → NoSlash base → Splits path (some base)

Splits-cons :
    (c : ℕ) (cs : Bytes) {o : Option Bytes}
    → Splits cs o
    → Splits
        (c ∷ cs)
        (elim o [ some rest ↦ some rest | none ↦ if c == b'/' then some cs else none ])
Splits-cons c cs (at_slash dir base e clean) =
    at_slash (c ∷ dir) base (ap (λ (r : Bytes). c ∷ r) e) clean
Splits-cons c cs (whole clean) = elim (Bool-cases (c == b'/')) [
  | inl slash ↦ rw slash (at_slash [] cs (ap (λ (d : ℕ). d ∷ cs) ((==_iff c b'/').0 slash)) clean)
  | inr other ↦ rw other (whole ((λ e. cc (other, (==_iff c b'/').1 e)), clean))
]

Splits-after_last_slash : (path : Bytes) → Splits path (after_last_slash path)
unfolding after_last_slash
Splits-after_last_slash [] = whole tt
Splits-after_last_slash (c ∷ cs) = Splits-cons c cs (Splits-after_last_slash cs)

abbrev IsBaseOf : Bytes → Bytes → Type 0
IsBaseOf path base = NoSlash base × ((path ≡ base) ⊎ ((dir : Bytes) × (path ≡ dir ++ b'/' ∷ base)))

base_of :
    (path : Bytes) {o : Option Bytes}
    → Splits path o
    → IsBaseOf path (elim o [ some rest ↦ rest | none ↦ path ])
base_of path (whole clean) = (clean, inl refl)
base_of path (at_slash dir base e clean) = (clean, inr (dir, e))

-- The base name of a path has no slash, and it is the path itself or all that follows a slash of it.
pub basename_of_lem :
    (path : Bytes)
    → NoSlash (basename_of path)
      × ((path ≡ basename_of path) ⊎ ((dir : Bytes) × (path ≡ dir ++ b'/' ∷ basename_of path)))
unfolding basename_of
basename_of_lem path = base_of path (Splits-after_last_slash path)
