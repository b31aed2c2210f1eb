-- ===== src/Api/Slug.antt =====
-- `slugify` of internal/api/resource_handlers.go.
pub mod Alphabet
use uran_api.Prelude.{
  ℕ, Text, Bool, true, false, not, ◌&&◌, ◌||◌, List, [], ◌∷◌, ◌++◌, ◌==◌, nat_eq, text_eq, leb,
  if◌then◌else◌,
}
use uran_api.Go.Unicode.{Unicode, trim, trim_space, lower}

-- The characters that are kept.
unfoldable pub is_plain : ℕ → Bool
is_plain c = (leb b'a' c && leb c b'z') || (leb b'0' c && leb c b'9')

-- The loop, with what was written so far and whether that ends in a dash.
unfoldable pub slug_loop : Text → Bool → Text → Text
unfolding is_plain
slug_loop out prev_dash [] = out
slug_loop out prev_dash (c ∷ s) =
    slug_loop
      (if is_plain c
        then out ++ (c ∷ [])
        else if not prev_dash && not (out == [])
        then out ++ (b'-' ∷ [])
        else out)
      (if is_plain c then false else prev_dash || not (out == [])) s

abbrev pub is_dash : ℕ → Bool
is_dash c = c == b'-'

unfoldable pub slugify : Unicode → Text → Text
unfolding slug_loop
slugify u s = trim is_dash (slug_loop [] false (lower u (trim_space u s)))
