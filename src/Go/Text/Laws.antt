-- ===== src/Go/Text/Laws.antt =====
-- Texts joined by a separator are taken apart at it.
use uran_api.Prelude.{
  ℕ, Text, ◌≡◌, refl, false, none, some, [], ◌∷◌, ◌++◌, ◌==◌, nat_eq, All, arith,
}
use uran_api.Go.Text.{cut_prefix, cut, split}

-- The separator does not occur.
abbrev pub Free : ℕ → Text → Type 0
Free sep s = All (λ c. (c == sep) ≡ false) s

pub Free-append : (sep : ℕ) (s t : Text) → Free sep s → Free sep t → Free sep (s ++ t)
Free-append sep [] t a b = b
Free-append sep (c ∷ s) t a b = (a.0, Free-append sep s t a.1 b)

pub cut_prefix-append : (p s : Text) → cut_prefix p (p ++ s) ≡ some s
unfolding cut_prefix
cut_prefix-append [] s = refl
cut_prefix-append (c ∷ p) s = ground (arith, cut_prefix-append p s)

pub cut-joined : (sep : ℕ) (a b : Text) → Free sep a → cut sep (a ++ sep ∷ b) ≡ some (a, b)
unfolding cut
cut-joined sep [] b f = ground arith
cut-joined sep (c ∷ a) b f = rw (f.0, cut-joined sep a b f.1)

pub cut-Free : (sep : ℕ) (a : Text) → Free sep a → cut sep a ≡ none
unfolding cut
cut-Free sep [] f = refl
cut-Free sep (c ∷ a) f = rw (f.0, cut-Free sep a f.1)

pub split-Free : (sep : ℕ) (a : Text) → Free sep a → split sep a ≡ a ∷ []
unfolding split
split-Free sep [] f = refl
split-Free sep (c ∷ a) f = rw (f.0, split-Free sep a f.1)

pub split-joined : (sep : ℕ) (a b : Text) → Free sep a → split sep (a ++ sep ∷ b) ≡ a ∷ split sep b
unfolding split
split-joined sep [] b f = ground arith
split-joined sep (c ∷ a) b f = rw (f.0, split-joined sep a b f.1)
