-- ===== src/Api/Webhook/Matches.antt =====
-- Which services an event reaches.
use uran_api.Prelude.{
  ℕ, Text, Bool, true, false, ◌≡◌, refl, List, [], ◌∷◌, ◌++◌, arith, ◌==◌, nat_eq, text_eq,
  text_beq_iff, any, if◌then◌else◌, Bool-cases, inl, inr,
}
use mathlib.Core.List.{reverse_aux}
use mathlib.Core.Path.{subst}
use uran_api.Exec.{Result, ok, err, pure, continue, ◌>>=◌}
use uran_api.Go.Text.{codes}
use uran_api.Go.Unicode.{drop_while}
use uran_api.Store.{World, Query, Error}
use uran_api.Store.Models.{Service}
use uran_api.Store.Repos.{trim_trailing, same_repo}
use uran_api.Api.Webhook.{add_new, dedupe_from, dedupe_services}

-- No id twice.
abbrev Unique : List ℕ → Type 0
Unique [] = Unit
Unique (i ∷ is) = (any (λ j. j == i) is ≡ false) × Unique is

any-snoc :
    (p : ℕ → Bool) (is : List ℕ) (i : ℕ)
    → any p is ≡ false
    → p i ≡ false
    → any p (is ++ (i ∷ [])) ≡ false
unfolding any
any-snoc p [] i n e = rw e refl
any-snoc p (j ∷ is) i n e = ground (arith, any-snoc p is i)

Unique-snoc :
    (is : List ℕ) (i : ℕ) → any (λ j. j == i) is ≡ false → Unique is → Unique (is ++ (i ∷ []))
unfolding any
Unique-snoc [] i n u = (refl, tt)
Unique-snoc (j ∷ is) i n u =
    (any-snoc (λ k. k == j) is i u.0 (ground arith), Unique-snoc is i (ground arith) u.1)

add_new-Unique : (ms : List Service) (out : List ℕ) → Unique out → Unique (add_new out ms)
unfolding add_new
add_new-Unique [] out u = u
add_new-Unique (m ∷ ms) out u = elim (Bool-cases (any (λ i. i == m.id) out)) [
  | inl e ↦ rw e (add_new-Unique ms out u)
  | inr e ↦ rw e (add_new-Unique ms (out ++ (m.id ∷ [])) (Unique-snoc out m.id e u))
]

succeeded :
    {A B : Type 0} (r : Result Error A) (f : A → Query B) (w : World) (b : B)
    → (continue r f w).0 ≡ ok b
    → (a : A) × ((f a w).0 ≡ ok b)
succeeded (ok a) f w b e = (a, e)
succeeded (err x) f w b e = absurd (ground arith)

dedupe_from-Unique :
    (lookup : Text → Query (List Service)) (urls : List Text) (out : List ℕ) (w : World)
    (ids : List ℕ)
    → Unique out
    → (dedupe_from lookup out urls w).0 ≡ ok ids
    → Unique ids
unfolding dedupe_from ◌>>=◌ pure
dedupe_from-Unique lookup [] out w ids u e = subst Unique (ground arith) u
dedupe_from-Unique lookup (url ∷ urls) out w ids u e =
    let (r, w') = (if url == [] then pure [] else lookup url) w in
    let (ms, rest) = succeeded r (λ ms. dedupe_from lookup (add_new out ms) urls) w' ids e in
    dedupe_from-Unique lookup urls (add_new out ms) w' ids (add_new-Unique ms out u) rest

-- The services that an event reaches are listed once each, whatever the lookups find.
dedupe_services-Unique :
    (lookup : Text → Query (List Service)) (urls : List Text) (w : World) (ids : List ℕ)
    → (dedupe_services lookup urls w).0 ≡ ok ids
    → Unique ids
unfolding dedupe_services
dedupe_services-Unique lookup urls w ids e = dedupe_from-Unique lookup urls [] w ids tt e

append_reverse : (s t out : Text) → reverse_aux (s ++ t) out ≡ reverse_aux t (reverse_aux s out)
append_reverse [] t out = refl
append_reverse (c ∷ s) t out = append_reverse s t (c ∷ out)

-- A service whose repository's URL ends in "it" is taken for one of the URL without that ending, and
-- the other way round, whatever the URL.
pub same_repo_collision :
    (fold : Text → Text) (s : Text) → same_repo fold (s ++ codes "it") s ≡ true
unfolding same_repo trim_trailing drop_while
same_repo_collision fold s =
    rw (append_reverse s (codes "it") [])
      ((text_beq_iff (fold (trim_trailing s)) (fold (trim_trailing s))).1 refl)
