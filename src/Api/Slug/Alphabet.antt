-- ===== src/Api/Slug/Alphabet.antt =====
-- What a slug consists of.
use uran_api.Prelude.{
  leb, ℕ, Text, Bool, true, false, not, ◌&&◌, ◌||◌, [], ◌∷◌, ◌++◌, ◌==◌, nat_eq, text_eq,
  if◌then◌else◌, All, All-reverse_aux, All-map, All-append, arith, ◌≡◌, refl,
}
use uran_api.Go.Unicode.{Unicode, drop_while, trim, trim_space, lower}
use uran_api.Go.Text.Laws.{Free}
use uran_api.Api.Slug.{is_plain, slug_loop, is_dash, slugify}

abbrev pub InSlug : ℕ → Type 0
InSlug c = ((leb b'a' c && leb c b'z') || ((leb b'0' c && leb c b'9') || c == b'-')) ≡ true

slug_loop-InSlug :
    (s out : Text) (prev_dash : Bool) → All InSlug out → All InSlug (slug_loop out prev_dash s)
unfolding slug_loop is_plain
slug_loop-InSlug [] out prev_dash a = a
slug_loop-InSlug (c ∷ s) out prev_dash a =
    slug_loop-InSlug s
      (if is_plain c
        then out ++ (c ∷ [])
        else if not prev_dash && not (out == [])
        then out ++ (b'-' ∷ [])
        else out)
      (if is_plain c then false else prev_dash || not (out == []))
      (grown (is_plain c) refl (not prev_dash && not (out == [])))
  where
    plain : is_plain c ≡ true → InSlug c
    plain e = ground (arith, e)

    grown :
        (b : Bool)
        → is_plain c ≡ b
        → (d : Bool)
        → All InSlug (if b then out ++ (c ∷ []) else if d then out ++ (b'-' ∷ []) else out)
    grown true e d = All-append InSlug out (c ∷ []) a (plain e, tt)
    grown false e true = All-append InSlug out (b'-' ∷ []) a (refl, tt)
    grown false e false = a

drop_while-All {κ} : (P : ℕ → Type κ) (p : ℕ → Bool) (s : Text) → All P s → All P (drop_while p s)
unfolding drop_while
drop_while-All P p [] a = a
drop_while-All P p (c ∷ s) a = ground (arith, drop_while-All P p s a.1)

trim-All {κ} : (P : ℕ → Type κ) (p : ℕ → Bool) (s : Text) → All P s → All P (trim p s)
unfolding trim
trim-All P p s a =
    All-reverse_aux P _ []
      (drop_while-All P p _ (All-reverse_aux P _ [] (drop_while-All P p s a) tt)) tt

-- The slug of any name holds only lower-case ASCII letters, ASCII digits and dashes.
pub slugify-InSlug : (u : Unicode) (name : Text) → All InSlug (slugify u name)
unfolding slugify
slugify-InSlug u name =
    trim-All InSlug is_dash _ (slug_loop-InSlug (lower u (trim_space u name)) [] false tt)

pub slugify-Free : (u : Unicode) (name : Text) → Free b':' (slugify u name)
unfolding is_plain
slugify-Free u name = All-map _ _ (slugify u name) (λ c h. no_colon c h) (slugify-InSlug u name)
  where
    no_colon : (c : ℕ) → InSlug c → (c == b':') ≡ false
    no_colon c h = ground arith
