-- ===== src/Exec/Respects.antt =====
-- Two-state properties of actions: `m` takes every state to one that stands in the relation `R` to
-- it, whether it returns or raises. One rule for each way to build an action.
use uran_api.Prelude.{◌≡◌, refl, Bool, true, false, if◌then◌else◌}
use uran_api.Exec.{
  Result, ok, err, Exec, pure, raise, lift, continue, ◌>>=◌, catch, try, or_raise, guard,
}

pub record IsPreorder {ℓ κ} {S : Type ℓ} (R : S → S → Type κ) : Type (ℓ ⊔ κ) where
  pub rfl : (s : S) → R s s
  pub trans : (s t u : S) → R s t → R t u → R s u

pub record Respects {ℓ κ} {S E A : Type ℓ} (R : S → S → Type κ) (m : Exec S E A)
    : Type (ℓ ⊔ κ) where
  pub at : (s : S) → R s (m s).1

-- An invariant, as a relation between the state before and after.
abbrev pub Kept {ℓ κ} : {S : Type ℓ} → (S → Type κ) → S → S → Type κ
Kept P s t = P s → P t

pub Kept-IsPreorder {ℓ κ} : {S : Type ℓ} (P : S → Type κ) → IsPreorder (Kept P)
Kept-IsPreorder P = record { rfl = λ s h. h; trans = λ s t u f g h. g (f h) }

module _ {ℓ κ} {S E A : Type ℓ} {R : S → S → Type κ} (po : IsPreorder R) where
  pub Respects-pure : (a : A) → Respects {E = E} R (pure a)
  unfolding pure
  Respects-pure a = record { at = po.rfl }

  pub Respects-raise : (e : E) → Respects {A = A} R (raise e)
  unfolding raise
  Respects-raise e = record { at = po.rfl }

  pub Respects-lift : (r : Result E A) → Respects R (lift r)
  unfolding lift
  Respects-lift r = record { at = po.rfl }

module _ {ℓ κ} {S E A : Type ℓ} {R : S → S → Type κ} where
  pub Respects-if :
      (b : Bool) (m n : Exec S E A)
      → (b ≡ true → Respects R m)
      → (b ≡ false → Respects R n)
      → Respects R (if b then m else n)
  Respects-if true m n rm rn = rm refl
  Respects-if false m n rm rn = rn refl

module _ {ℓ κ} {S E A B : Type ℓ} {R : S → S → Type κ} (po : IsPreorder R) where
  Respects-continue :
      (r : Result E A) (f : A → Exec S E B)
      → ((a : A) → r ≡ ok a → Respects R (f a))
      → (s : S) → R s (continue r f s).1
  Respects-continue (ok a) f rf s = (rf a refl).at s
  Respects-continue (err e) f rf s = po.rfl s

  pub Respects-bind :
      (m : Exec S E A) (f : A → Exec S E B)
      → Respects R m
      → ((a : A) → Respects R (f a))
      → Respects R (m >>= f)
  unfolding ◌>>=◌
  Respects-bind m f rm rf = record {
    at = λ s.
        let (r, s') = m s in po.trans s s' _ (rm.at s) (Respects-continue r f (λ a _. rf a) s');
  }

module _ {ℓ κ} {S E F A : Type ℓ} {R : S → S → Type κ} (po : IsPreorder R) where
  Respects-caught :
      (r : Result E A) (k : E → Exec S F A)
      → ((e : E) → Respects R (k e))
      → (s : S) → R s (catch (lift r) k s).1
  unfolding catch
  Respects-caught (ok a) k rk s = po.rfl s
  Respects-caught (err e) k rk s = (rk e).at s

  pub Respects-catch :
      (m : Exec S E A) (k : E → Exec S F A)
      → Respects R m
      → ((e : E) → Respects R (k e))
      → Respects R (catch m k)
  unfolding catch
  Respects-catch m k rm rk = record {
    at = λ s. let (r, s') = m s in po.trans s s' _ (rm.at s) (Respects-caught r k rk s');
  }

  pub Respects-or_raise : (m : Exec S E A) (e : F) → Respects R m → Respects R (or_raise m e)
  unfolding or_raise
  Respects-or_raise m e rm = Respects-catch m _ rm (λ _. Respects-raise po e)

module _ {ℓ κ} {S E F A : Type ℓ} {R : S → S → Type κ} where
  pub Respects-try : (m : Exec S E A) → Respects R m → Respects {E = F} R (try m)
  unfolding try
  Respects-try m rm = record { at = λ s. rm.at s }

module _ {ℓ κ} {S E : Type ℓ} {R : S → S → Type κ} (po : IsPreorder R) where
  pub Respects-guard : (good : Bool) (e : E) → Respects R (guard good e)
  unfolding guard
  Respects-guard true e = Respects-pure po tt
  Respects-guard false e = Respects-raise po e

pub ruleset respects_rules = (
  Respects-pure, Respects-raise, Respects-lift, Respects-if, Respects-bind, Respects-catch,
  Respects-or_raise, Respects-try, Respects-guard,
)
