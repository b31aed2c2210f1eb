-- ===== src/K8s/Ledger/Carried.antt =====
-- internal/k8s: methods of the reconciler as lists of requests. `Does` is for one that only makes
-- requests, `Ends` for one that goes on with a last step. One rule for each way to build a method.
use uran_api.Prelude.{
  ◌≡◌, refl, sym, ◌∙◌, ap, Bool, true, false, List, [], ◌∷◌, ◌++◌, if◌then◌else◌,
}
use uran_api.Exec.{Result, ok, err, pure, continue, ◌>>=◌, ◌>>◌}
use uran_api.K8s.Wire.{Request, Wire, Fault, Action, request}
use uran_api.K8s.Ledger.{carry_out}

pub record Does (m : Action Unit) (rs : List Request) : Type 0 where
  pub at : (w : Wire) → m w ≡ carry_out rs w

pub record Ends (m : Action Unit) (rs : List Request) (end : Action Unit) : Type 0 where
  pub at : (w : Wire) → m w ≡ (carry_out rs >> end) w

-- The rest of a method, after a step whose outcome is known.
go_on : Result Fault Unit × Wire → Action Unit → Result Fault Unit × Wire
go_on (r, w) m = continue r (λ _. m) w

go_on-pure : (x : Result Fault Unit × Wire) → go_on x (pure tt) ≡ x
unfolding go_on pure
go_on-pure (ok tt, w) = refl
go_on-pure (err e, w) = refl

go_on_assoc :
    (x : Result Fault Unit × Wire) (m n : Action Unit) → go_on (go_on x m) n ≡ go_on x (m >> n)
unfolding go_on ◌>>=◌
go_on_assoc (ok tt, w) m n = refl
go_on_assoc (err e, w) m n = refl

go_on-cong :
    (x : Result Fault Unit × Wire) (m n : Action Unit)
    → ((w : Wire) → m w ≡ n w)
    → go_on x m ≡ go_on x n
unfolding go_on
go_on-cong (ok tt, w) m n h = h w
go_on-cong (err e, w) m n h = refl

bind_assoc : (l m n : Action Unit) (w : Wire) → ((l >> m) >> n) w ≡ (l >> (m >> n)) w
unfolding ◌>>=◌ go_on
bind_assoc l m n w = go_on_assoc (l w) m n

bind-cong : (l m n : Action Unit) (w : Wire) → ((w' : Wire) → m w' ≡ n w') → (l >> m) w ≡ (l >> n) w
unfolding ◌>>=◌ go_on
bind-cong l m n w h = go_on-cong (l w) m n h

bind-left : (l m n : Action Unit) (w : Wire) → ((w' : Wire) → l w' ≡ m w') → (l >> n) w ≡ (m >> n) w
unfolding ◌>>=◌ go_on
bind-left l m n w h = ap (λ x. go_on x n) (h w)

carry-append :
    (rs qs : List Request) (w : Wire) → (carry_out rs >> carry_out qs) w ≡ carry_out (rs ++ qs) w
unfolding carry_out ◌>>=◌ pure
carry-append [] qs w = refl
carry-append (r ∷ rs) qs w =
    bind_assoc (request r) (carry_out rs) (carry_out qs) w
    ∙ bind-cong (request r) _ _ w (carry-append rs qs)

pub Does-request : (r : Request) → Does (request r) (r ∷ [])
unfolding carry_out ◌>>=◌ go_on
Does-request r = record { at = λ w. sym (go_on-pure (request r w)) }

pub Does-pure : Does (pure tt) []
unfolding carry_out
Does-pure = record { at = λ w. refl }

pub Does-bind :
    (m n : Action Unit) (rs qs : List Request) → Does m rs → Does n qs → Does (m >> n) (rs ++ qs)
Does-bind m n rs qs dm dn = record {
  at = λ w.
      bind-left m (carry_out rs) n w dm.at
      ∙ (bind-cong (carry_out rs) n _ w (dn.at) ∙ carry-append rs qs w);
}

pub Does-if :
    (b : Bool) (m n : Action Unit) (rs qs : List Request)
    → Does m rs
    → Does n qs
    → Does (if b then m else n) (if b then rs else qs)
Does-if true m n rs qs dm dn = dm
Does-if false m n rs qs dm dn = dn

pub Ends-last : (m end : Action Unit) (rs : List Request) → Does m rs → Ends (m >> end) rs end
Ends-last m end rs d = record { at = λ w. bind-left m (carry_out rs) end w d.at }

pub Ends-Does : (m : Action Unit) (rs : List Request) → Does m rs → Ends m rs (pure tt)
unfolding ◌>>=◌ go_on
Ends-Does m rs d = record { at = λ w. d.at w ∙ sym (go_on-pure (carry_out rs w)) }

pub Ends-bind :
    (m n : Action Unit) (rs qs : List Request) (end : Action Unit)
    → Does m rs
    → Ends n qs end
    → Ends (m >> n) (rs ++ qs) end
Ends-bind m n rs qs end dm en = record {
  at = λ w.
      bind-left m (carry_out rs) n w dm.at
      ∙ (bind-cong (carry_out rs) n _ w en.at
          ∙ (sym (bind_assoc (carry_out rs) (carry_out qs) end w)
              ∙ bind-left (carry_out rs >> carry_out qs) (carry_out (rs ++ qs)) end w
                  (carry-append rs qs)));
}

pub Ends-if :
    (b : Bool) (m n : Action Unit) (rs qs : List Request) (e f : Action Unit)
    → Ends m rs e
    → Ends n qs f
    → Ends (if b then m else n) (if b then rs else qs) (if b then e else f)
Ends-if true m n rs qs e f em en = em
Ends-if false m n rs qs e f em en = en

-- A request, then a list of them.
pub Does-step :
    (r : Request) (m : Action Unit) (rs : List Request) → Does m rs → Does (request r >> m) (r ∷ rs)
Does-step r m rs d = Does-bind (request r) m (r ∷ []) rs (Does-request r) d

pub Ends-step :
    (m n : Action Unit) (r : Request) (rs : List Request) (end : Action Unit)
    → Does m (r ∷ [])
    → Ends n rs end
    → Ends (m >> n) (r ∷ rs) end
Ends-step m n r rs end d e = Ends-bind m n (r ∷ []) rs end d e

-- A last step that waits and makes no request.
abbrev pub Quiet : Action Unit → Type 0
Quiet end = (w : Wire) → (end w).1 ≡ w

go_on-Quiet : (x : Result Fault Unit × Wire) (end : Action Unit) → Quiet end → (go_on x end).1 ≡ x.1
unfolding go_on
go_on-Quiet (ok tt, w) end q = q w
go_on-Quiet (err e, w) end q = refl

go_on-ok :
    (x : Result Fault Unit × Wire) (end : Action Unit) → (go_on x end).0 ≡ ok tt → x.0 ≡ ok tt
unfolding go_on
go_on-ok (ok tt, w) end h = refl
go_on-ok (err e, w) end h = h

go_on-done :
    (x : Result Fault Unit × Wire) (end : Action Unit)
    → x.0 ≡ ok tt
    → ((w : Wire) → (end w).0 ≡ ok tt)
    → (go_on x end).0 ≡ ok tt
unfolding go_on
go_on-done (ok tt, w) end h e = e w
go_on-done (err why, w) end h e = h

module _ (m end : Action Unit) (rs : List Request) (d : Ends m rs end) (w : Wire) where
  pub Ends-state : Quiet end → (m w).1 ≡ (carry_out rs w).1
  unfolding ◌>>=◌ go_on
  Ends-state q = ap (λ x. x.1) (d.at w) ∙ go_on-Quiet (carry_out rs w) end q

  pub Ends-ok : (m w).0 ≡ ok tt → (carry_out rs w).0 ≡ ok tt
  unfolding ◌>>=◌ go_on
  Ends-ok h = go_on-ok (carry_out rs w) end (sym (ap (λ x. x.0) (d.at w)) ∙ h)

  pub Ends-done : (carry_out rs w).0 ≡ ok tt → ((w' : Wire) → (end w').0 ≡ ok tt) → (m w).0 ≡ ok tt
  unfolding ◌>>=◌ go_on
  Ends-done h e = ap (λ x. x.0) (d.at w) ∙ go_on-done (carry_out rs w) end h e
