-- ===== src/Go/Text.antt =====
-- strings.CutPrefix, HasPrefix, Cut, Split, SplitN and Trim, on lists of code points.
pub mod Laws
use Prim.Native.Char.{code}
use uran_api.Prelude.{
  ℕ, zero, suc, String, Text, Bool, true, false, Option, none, some, List, [], ◌∷◌, ◌++◌, ◌==◌,
  nat_eq, if◌then◌else◌, ltb, ◌+◌,
}

abbrev pub codes : String → Text
codes String.[] = []
codes (String.◌∷◌ c s) = code c ∷ codes s

-- What follows the prefix.
unfoldable pub cut_prefix : Text → Text → Option Text
cut_prefix [] s = some s
cut_prefix (p ∷ ps) [] = none
cut_prefix (p ∷ ps) (c ∷ s) = if p == c then cut_prefix ps s else none

unfoldable pub has_prefix : Text → Text → Bool
unfolding cut_prefix
has_prefix p s = elim (cut_prefix p s) [ none ↦ false | some _ ↦ true ]

cons_first : ℕ → Option (Text × Text) → Option (Text × Text)
cons_first c none = none
cons_first c (some (a, b)) = some (c ∷ a, b)

-- Before and after the first separator.
unfoldable pub cut : ℕ → Text → Option (Text × Text)
unfolding cons_first
cut sep [] = none
cut sep (c ∷ s) = if c == sep then some ([], s) else cons_first c (cut sep s)

cons_head : ℕ → List Text → List Text
cons_head c [] = (c ∷ []) ∷ []
cons_head c (t ∷ ts) = (c ∷ t) ∷ ts

unfoldable pub split : ℕ → Text → List Text
unfolding cons_head
split sep [] = [] ∷ []
split sep (c ∷ s) = if c == sep then [] ∷ split sep s else cons_head c (split sep s)

-- At most `suc n` parts, the last of them with the rest.
unfoldable pub split_n : ℕ → ℕ → Text → List Text
unfolding cut
split_n zero sep s = s ∷ []
split_n (suc n) sep s = elim (cut sep s) [ none ↦ s ∷ [] | some (a, b) ↦ a ∷ split_n n sep b ]

-- `strings.Replace(s, old, new, 1)` for an `old` that is not empty.
unfoldable pub replace_once : Text → Text → Text → Text
unfolding cut_prefix
replace_once old new [] = []
replace_once old new (c ∷ s) = elim (cut_prefix old (c ∷ s)) [
  | some rest ↦ new ++ rest
  | none ↦ c ∷ replace_once old new s
]

-- `strings.Join`
unfoldable pub join : Text → List Text → Text
join sep [] = []
join sep (s ∷ []) = s
join sep (s ∷ t ∷ ts) = s ++ (sep ++ join sep (t ∷ ts))

-- The bytes of a code point in UTF-8.
abbrev width : ℕ → ℕ
width c = if ltb c 128 then 1 else if ltb c 2048 then 2 else if ltb c 65536 then 3 else 4

-- `len(s)`
unfoldable pub byte_length : Text → ℕ
byte_length [] = 0
byte_length (c ∷ s) = width c + byte_length s
