-- ===== src/Exec.antt =====
-- Go functions that change a shared state and return `(value, error)`. What was written before an
-- error stays written, so the state comes back beside the error too.
pub mod Respects
use uran_api.Prelude.{Bool, true, false, if◌then◌else◌}

pub data Result {ℓ} (E A : Type ℓ) : Type ℓ where
  ok : A → Result E A
  err : E → Result E A

abbrev pub Exec {ℓ} : Type ℓ → Type ℓ → Type ℓ → Type ℓ
Exec S E A = S → Result E A × S

module _ {ℓ} {S E A : Type ℓ} where
  -- What is known already.
  unfoldable pub lift : Result E A → Exec S E A
  lift outcome w = (outcome, w)

  -- `return err`.
  unfoldable pub raise : E → Exec S E A
  raise why w = (err why, w)

  unfoldable pub pure : A → Exec S E A
  pure value w = (ok value, w)

module _ {ℓ} {S E A B : Type ℓ} where
  abbrev pub continue : Result E A → (A → Exec S E B) → Exec S E B
  continue (err why) then_ w = (err why, w)
  continue (ok value) then_ w = then_ value w

  infixl 10 ◌>>=◌
  -- `a, err := m(); if err != nil { return err }; …`
  unfoldable pub ◌>>=◌ : Exec S E A → (A → Exec S E B) → Exec S E B
  unfolding lift raise pure
  ◌>>=◌ first then_ w = let (outcome, w') = first w in continue outcome then_ w'

  infixl 10 ◌>>◌
  abbrev pub ◌>>◌ : Exec S E A → Exec S E B → Exec S E B
  first >> second = first >>= λ _. second

module _ {ℓ} {S E F A : Type ℓ} where
  abbrev caught : Result E A → (E → Exec S F A) → Exec S F A
  caught (ok a) k s = (ok a, s)
  caught (err e) k s = k e s

  -- `a, err := m(); if err != nil { return k(err) }`
  unfoldable pub catch : Exec S E A → (E → Exec S F A) → Exec S F A
  unfolding raise lift
  catch m k s = let (r, s') = m s in caught r k s'

  -- `a, err := m()`, where the code goes on in both cases.
  unfoldable pub try : Exec S E A → Exec S F (Result E A)
  unfolding pure
  try m s = let (r, s') = m s in (ok r, s')

-- An error is replaced by a fixed one, as by `writeError`.
unfoldable pub or_raise {ℓ} : {S E F A : Type ℓ} → Exec S E A → F → Exec S F A
unfolding catch
or_raise m e = catch m (λ _. raise e)

-- `if bad { return err }`
unfoldable pub guard {ℓ} : {S E : Type ℓ} → Bool → E → Exec S E Unit
unfolding pure raise
guard good e = if good then pure tt else raise e
