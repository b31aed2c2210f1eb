-- ===== src/Go/Unicode.antt =====
-- strings.TrimSpace, ToLower and Trim. What Unicode says of white space and letter case outside ASCII
-- is a parameter; of ASCII it is stated.
use uran_api.Prelude.{
  ℕ, ◌+◌, ◌<◌, Text, Bool, ◌&&◌, ◌||◌, [], ◌∷◌, map, reverse, ◌==◌, nat_eq, leb, if◌then◌else◌, ◌≡◌,
}

abbrev pub is_upper : ℕ → Bool
is_upper c = leb b'A' c && leb c b'Z'

abbrev pub is_blank : ℕ → Bool
is_blank c = (leb 9 c && leb c 13) || c == 32

-- unicode.IsSpace and unicode.ToLower.
pub record Unicode : Type 0 where
  pub is_space : ℕ → Bool
  pub to_lower : ℕ → ℕ
  pub is_space_ascii : (c : ℕ) → c < 128 → is_space c ≡ is_blank c
  pub to_lower_ascii : (c : ℕ) → c < 128 → to_lower c ≡ (if is_upper c then c + 32 else c)

-- `strings.TrimLeftFunc`
unfoldable pub drop_while : (ℕ → Bool) → Text → Text
drop_while p [] = []
drop_while p (c ∷ s) = if p c then drop_while p s else c ∷ s

unfoldable pub trim : (ℕ → Bool) → Text → Text
unfolding drop_while
trim p s = reverse (drop_while p (reverse (drop_while p s)))

module _ (u : Unicode) where
  unfoldable pub trim_space : Text → Text
  unfolding trim
  trim_space s = trim u.is_space s

  unfoldable pub lower : Text → Text
  lower s = map u.to_lower s
