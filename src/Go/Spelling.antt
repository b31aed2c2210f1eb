-- ===== src/Go/Spelling.antt =====
-- From a list of code points to a string, where the program only compares the text from then on.
use Prim.Native.Char.{Char, char, IsLt, IsScalar}
use Prim.Native.Nat.{Ordering, compare}
use uran_api.Prelude.{◌≡◌, refl, ap, ◌∙◌, ℕ, String, Text, Option, none, some, [], ◌∷◌}
use uran_api.Go.Text.{codes}

-- A scalar value, as its three comparisons make it one.
abbrev Both : Ordering → Ordering → Type 0
Both Ordering.lt o = IsLt o
Both Ordering.eq o = ⊥
Both Ordering.gt o = ⊥

abbrev Scalar : Ordering → Ordering → Ordering → Type 0
Scalar Ordering.lt _ _ = Unit
Scalar Ordering.eq o p = Both o p
Scalar Ordering.gt o p = Both o p

below : (o : Ordering) → Option (IsLt o)
below Ordering.lt = some tt
below Ordering.eq = none
below Ordering.gt = none

both : (o p : Ordering) → Option (Both o p)
unfolding below
both Ordering.lt p = below p
both Ordering.eq p = none
both Ordering.gt p = none

scalar : (o p q : Ordering) → Option (Scalar o p q)
unfolding both
scalar Ordering.lt p q = some tt
scalar Ordering.eq p q = both p q
scalar Ordering.gt p q = both p q

-- What is no scalar value is replaced by U+FFFD.
spelled : (n : ℕ) → Option (IsScalar n) → Char
spelled n none = char 65533 tt
spelled n (some p) = char n p

unfoldable pub spell : Text → String
unfolding scalar spelled
spell [] = ""
spell (n ∷ s) =
    String.◌∷◌ (spelled n (scalar (compare n 55296) (compare 57343 n) (compare n 1114112)))
      (spell s)

below-some : (o : Ordering) (p : IsLt o) → below o ≡ some p
unfolding below
below-some Ordering.lt p = refl
below-some Ordering.eq p = absurd p
below-some Ordering.gt p = absurd p

both-some : (o p : Ordering) (h : Both o p) → both o p ≡ some h
unfolding both
both-some Ordering.lt p h = below-some p h
both-some Ordering.eq p h = absurd h
both-some Ordering.gt p h = absurd h

scalar-some : (o p q : Ordering) (h : Scalar o p q) → scalar o p q ≡ some h
unfolding scalar
scalar-some Ordering.lt p q h = refl
scalar-some Ordering.eq p q h = both-some p q h
scalar-some Ordering.gt p q h = both-some p q h

-- A string is spelled as it is from its code points.
pub spell-codes : (s : String) → spell (codes s) ≡ s
unfolding spell spelled
spell-codes String.[] = refl
spell-codes (String.◌∷◌ (char n p) s) =
    let e = scalar-some (compare n 55296) (compare 57343 n) (compare n 1114112) p in
    ap (λ o. String.◌∷◌ (spelled n o) (spell (codes s))) e
    ∙ ap (λ t. String.◌∷◌ (char n p) t) (spell-codes s)
