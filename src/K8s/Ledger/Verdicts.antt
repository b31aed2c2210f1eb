-- ===== src/K8s/Ledger/Verdicts.antt =====
-- internal/k8s: the last word of a list of requests on a key, and names of objects that differ.
use uran_api.Prelude.{
  ◌≡◌, refl, sym, ap, ◌∙◌, ℕ, Text, Bool, true, false, Bool-cases, inl, inr, Option, none, some,
  List, [], ◌∷◌, ◌++◌, if◌then◌else◌, any, map, ◌≢◌, All, eq_iff, string_eq, text_eq, text_beq,
  text_beq_iff, arith,
}
use uran_api.K8s.Objects.{Key, Body, same_key}
use uran_api.K8s.Wire.{Request, put, drop}
use uran_api.K8s.Ledger.{has, concerns, verdict, key_of, body_of}

pub text_beq_refl : (t : Text) → text_beq t t ≡ true
text_beq_refl t = (text_beq_iff t t).1 refl

-- The names of the two routes of one service differ.
pub longer : (s t : Text) (n : ℕ) → text_beq (s ++ (n ∷ t)) s ≡ false
unfolding text_beq
longer [] t n = refl
longer (c ∷ s) t n = ground (arith, longer s t n)

unfoldable pub final : ℕ → Text → ℕ
final d [] = d
final d (c ∷ s) = final c s

final-append : (s t : Text) (d n : ℕ) → final d (s ++ (n ∷ t)) ≡ final n t
unfolding final
final-append [] t d n = refl
final-append (c ∷ s) t d n = final-append s t c n

-- Names with other last letters differ.
pub ends_differ : (s t u : Text) (n : ℕ) → final n t ≢ final 0 u → text_beq (s ++ (n ∷ t)) u ≡ false
ends_differ s t u n h = elim (Bool-cases (text_beq (s ++ (n ∷ t)) u)) [
  | inl e ↦ absurd (h (sym (final-append s t 0 n) ∙ ap (final 0) ((text_beq_iff _ u).0 e)))
  | inr e ↦ e
]

-- The request is about another object.
abbrev pub Elsewhere : Key → Request → Type 0
Elsewhere k r = same_key (key_of r) k ≡ false

pub All-concerns : (rs : List Request) (k : Key) → All (Elsewhere k) rs → concerns rs k ≡ false
unfolding concerns any
All-concerns [] k a = refl
All-concerns (r ∷ rs) k a = rw a.0 (All-concerns rs k a.1)

pub has-All : (ks : List Key) (k : Key) → has ks k ≡ false → All (λ j. same_key j k ≡ false) ks
unfolding has any
has-All [] k h = tt
has-All (j ∷ js) k h = (ground arith, has-All js k (ground arith))

pub All-if :
    (k : Key) (b : Bool) (ps qs : List Request)
    → All (Elsewhere k) ps
    → All (Elsewhere k) qs
    → All (Elsewhere k) (if b then ps else qs)
All-if k true ps qs ap_ aq = ap_
All-if k false ps qs ap_ aq = aq

pub All-verdict : (rs : List Request) (k : Key) → All (Elsewhere k) rs → verdict rs k ≡ none
unfolding verdict
All-verdict [] k a = refl
All-verdict (r ∷ rs) k a = rw (All-verdict rs k a.1, a.0) refl

pub same_key_refl : (k : Key) → same_key k k ≡ true
unfolding same_key
same_key_refl k =
    rw ((eq_iff k.kind k.kind).1 refl, text_beq_refl k.namespace, text_beq_refl k.name) refl

-- The last word on a key is that of the last request for it.
pub verdict-hit :
    (r : Request) (rs : List Request)
    → All (Elsewhere (key_of r)) rs
    → verdict (r ∷ rs) (key_of r) ≡ some (body_of r)
unfolding verdict
verdict-hit r rs a = rw (All-verdict rs (key_of r) a, same_key_refl (key_of r)) refl

-- The same, where a test decides between putting the object and dropping it.
pub verdict-choice :
    (b : Bool) (k : Key) (body : Body) (rs : List Request)
    → All (Elsewhere k) rs
    → verdict ((if b then put (record { at = k; body = body }) else drop k) ∷ rs) k
      ≡ some (if b then some body else none)
unfolding key_of body_of
verdict-choice true k body rs a = verdict-hit (put (record { at = k; body = body })) rs a
verdict-choice false k body rs a = verdict-hit (drop k) rs a

pub verdict-later :
    (r : Request) (rs : List Request) (k : Key) (b : Option Body)
    → verdict rs k ≡ some b
    → verdict (r ∷ rs) k ≡ some b
unfolding verdict
verdict-later r rs k b h = rw h refl

pub verdict-append :
    (ps qs : List Request) (k : Key) (b : Option Body)
    → verdict qs k ≡ some b
    → verdict (ps ++ qs) k ≡ some b
verdict-append [] qs k b h = h
verdict-append (p ∷ ps) qs k b h = verdict-later p (ps ++ qs) k b (verdict-append ps qs k b h)

pub verdict-other : (ks : List Key) (k : Key) → has ks k ≡ false → verdict (map drop ks) k ≡ none
unfolding has any verdict key_of
verdict-other [] k h = refl
verdict-other (j ∷ js) k h = ground (arith, verdict-other js k)

-- The verdict of a list of deletions.
pub verdict-drops :
    (ks : List Key) (k : Key) → has ks k ≡ true → verdict (map drop ks) k ≡ some none
unfolding has any verdict key_of body_of
verdict-drops [] k h = absurd (ground arith)
verdict-drops (j ∷ js) k h = elim (Bool-cases (has js k)) [
  | inl later ↦ rw (verdict-drops js k later) refl
  | inr not_later ↦ rw (verdict-other js k not_later) (ground arith)
]

pub drops-concern : (ks : List Key) (k : Key) → concerns (map drop ks) k ≡ has ks k
unfolding has any concerns key_of
drops-concern [] k = refl
drops-concern (j ∷ js) k = ap (λ b. if same_key j k then true else b) (drops-concern js k)

pub has_first : (k : Key) (ks : List Key) → has (k ∷ ks) k ≡ true
unfolding has any
has_first k ks = rw (same_key_refl k) refl

pub has_rest : (j k : Key) (ks : List Key) → has ks k ≡ true → has (j ∷ ks) k ≡ true
unfolding has any
has_rest j k ks h = ground (arith, h, Bool-cases (same_key j k))
