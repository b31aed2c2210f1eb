-- ===== src/K8s/Ledger/Laws.antt =====
-- internal/k8s: what a list of requests changes, whether it is carried out to its end or not.
use uran_api.Prelude.{
  ◌≡◌, refl, ◌∙◌, true, false, Bool-cases, List, [], ◌∷◌, any, All, ap, inl, inr, ℕ, suc, arith,
}
use mathlib.Core.Option.{get_or}
use uran_api.Exec.{ok, err, pure, ◌>>=◌}
use uran_api.K8s.Objects.{Key, same_key}
use uran_api.K8s.Wire.{
  Request, done, Wire, Fault, refused, panicked, put, create, drop, request, accepted, is_built,
}
use uran_api.K8s.Ledger.{key_of, standing, carry_out, onto, concerns, verdict}

-- The server's next answer has been taken.
abbrev next : Wire → Wire
next w = record w { sent = suc w.sent }

-- A request is met, refused, or never built.
data Outcome (r : Request) (w : Wire) : Type 0 where
  met : request r w ≡ (ok tt, record (next w) { log = r ∷ w.log }) → Outcome r w
  unmet : (why : Fault) (w' : Wire) → w'.log ≡ w.log → request r w ≡ (err why, w') → Outcome r w

request-met :
    (r : Request) (w : Wire)
    → is_built w.quantity r ≡ true
    → accepted r (w.answers w.sent) ≡ true
    → request r w ≡ (ok tt, record (next w) { log = r ∷ w.log })
unfolding request
request-met r w b h = rw (b, h) refl

request-cases : (r : Request) (w : Wire) → Outcome r w
unfolding request
request-cases r w = elim (Bool-cases (is_built w.quantity r)) [
  | inl b ↦ elim (Bool-cases (accepted r (w.answers w.sent))) [
    | inl h ↦ met (request-met r w b h)
    | inr h ↦ unmet refused (next w) refl (rw (b, h) refl)
  ]
  | inr b ↦ unmet panicked w refl (rw b refl)
]

done-accepted :
    (r : Request) (w : Wire) → ((n : ℕ) → w.answers n ≡ done) → accepted r (w.answers w.sent) ≡ true
unfolding accepted
done-accepted (put o) w h = rw (h w.sent) refl
done-accepted (create o) w h = rw (h w.sent) refl
done-accepted (drop k) w h = rw (h w.sent) refl

concerns-first :
    (r : Request) (rs : List Request) (k : Key)
    → concerns (r ∷ rs) k ≡ false
    → same_key (key_of r) k ≡ false
unfolding concerns any
concerns-first r rs k h = ground arith

concerns-rest :
    (r : Request) (rs : List Request) (k : Key)
    → concerns (r ∷ rs) k ≡ false
    → concerns rs k ≡ false
unfolding concerns any
concerns-rest r rs k h = ground arith

standing-skip :
    (r : Request) (log : List Request) (k : Key)
    → same_key (key_of r) k ≡ false
    → standing (r ∷ log) k ≡ standing log k
unfolding standing
standing-skip r log k h = rw h refl

-- Whatever the server answers, what no request of the list concerns is as it was.
pub carry-elsewhere :
    (rs : List Request) (k : Key) (w : Wire)
    → concerns rs k ≡ false
    → standing (carry_out rs w).1.log k ≡ standing w.log k
unfolding carry_out ◌>>=◌ concerns pure standing any
carry-elsewhere [] k w h = refl
carry-elsewhere (r ∷ rs) k w h = elim (request-cases r w) [
  | met e ↦ rw e (
      carry-elsewhere rs k _ (concerns-rest r rs k h)
      ∙ standing-skip r w.log k (concerns-first r rs k h))
  | unmet why w' same e ↦ rw e (ap (λ log. standing log k) same)
]

err-ne-ok : (why : Fault) → err why ≡ ok tt → ⊥
err-ne-ok why h = ground arith

-- A list that was carried out without an error is in the log, all of it.
pub carry-log :
    (rs : List Request) (w : Wire)
    → (carry_out rs w).0 ≡ ok tt
    → (carry_out rs w).1.log ≡ onto rs w.log
unfolding carry_out ◌>>=◌ pure onto
carry-log [] w h = refl
carry-log (r ∷ rs) w h = elim (request-cases r w) [
  | met e ↦ rw e (carry-log rs _ (rw e at h))
  | unmet why w' same e ↦ absurd (err-ne-ok why (rw e at h))
]

-- When the server does all that it is asked, and each request is built, a list is carried out.
pub carry-done :
    (rs : List Request) (w : Wire)
    → ((n : ℕ) → w.answers n ≡ done)
    → All (λ r. is_built w.quantity r ≡ true) rs
    → (carry_out rs w).0 ≡ ok tt
unfolding carry_out ◌>>=◌ pure
carry-done [] w h b = refl
carry-done (r ∷ rs) w h b = rw (request-met r w b.0 (done-accepted r w h)) (carry-done rs _ h b.1)

pub standing-onto :
    (rs log : List Request) (k : Key)
    → standing (onto rs log) k ≡ get_or (verdict rs k) (standing log k)
unfolding onto verdict standing
standing-onto [] log k = refl
standing-onto (r ∷ rs) log k = rw (standing-onto rs (r ∷ log) k) (ground arith)
