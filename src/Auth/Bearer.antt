-- ===== src/Auth/Bearer.antt =====
-- internal/auth/auth.go: the bearer token of a header, for tokens as `NewToken` makes them, which are
-- hexadecimal digits.
use uran_api.Prelude.{
  ℕ, Text, Bool, true, false, ◌&&◌, ◌||◌, ◌≡◌, refl, ap, ◌∙◌, [], ◌∷◌, ◌++◌, nat_eq, nat_beq,
  text_eq, reverse, All, All-map, All-reverse_aux, leb, arith,
}
use mathlib.Core.List.{reverse-reverse}
use uran_api.Go.Text.{codes, cut_prefix, has_prefix}
use uran_api.Go.Unicode.{Unicode, drop_while, trim, trim_space}
use uran_api.Auth.{api_token_prefix, trimmed, bearer_token}

abbrev pub is_hex : ℕ → Bool
is_hex c = (leb b'0' c && leb c b'9') || (leb b'a' c && leb c b'f')

abbrev pub Hex : Text → Type 0
Hex s = All (λ c. is_hex c ≡ true) s

Keeps : (ℕ → Bool) → Text → Type 0
Keeps p s = All (λ c. p c ≡ false) s

drop_while-Keeps : (p : ℕ → Bool) (s : Text) → Keeps p s → drop_while p s ≡ s
unfolding drop_while Keeps
drop_while-Keeps p [] a = refl
drop_while-Keeps p (c ∷ s) a = rw a.0 refl

trim-Keeps : (p : ℕ → Bool) (s : Text) → Keeps p s → trim p s ≡ s
unfolding trim Keeps
trim-Keeps p s a =
    ap (λ t. reverse (drop_while p (reverse t))) (drop_while-Keeps p s a)
    ∙ (ap reverse (drop_while-Keeps p (reverse s) (All-reverse_aux _ s [] a tt))
        ∙ reverse-reverse s)

is_hex-Keeps : (u : Unicode) (c : ℕ) → is_hex c ≡ true → u.is_space c ≡ false
is_hex-Keeps u c h = u.is_space_ascii c (ground (arith, h)) ∙ ground (arith, h)

trim_space-Hex : (u : Unicode) (s : Text) → Hex s → trim_space u s ≡ s
unfolding trim_space Keeps
trim_space-Hex u s h = trim-Keeps u.is_space s (All-map _ _ s (is_hex-Keeps u) h)

hex_ne_u : (c : ℕ) → is_hex c ≡ true → nat_beq b'u' c ≡ false
hex_ne_u c h = ground (arith, h)

pub has_prefix-Hex : (s : Text) → Hex s → has_prefix api_token_prefix s ≡ false
unfolding has_prefix cut_prefix
has_prefix-Hex [] h = refl
has_prefix-Hex (c ∷ s) h = rw (hex_ne_u c h.0, has_prefix) refl

pub bearer_token-Hex :
    (u : Unicode) (hash_api_token : Text → Text) (s : Text)
    → Hex s
    → bearer_token u hash_api_token (codes "Bearer " ++ s) ≡ s
unfolding bearer_token trimmed cut_prefix
bearer_token-Hex u hash_api_token s h = trim_space-Hex u s h
