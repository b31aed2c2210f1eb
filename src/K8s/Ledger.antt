-- ===== src/K8s/Ledger.antt =====
-- internal/k8s, seen from the cluster: what a log of requests leaves standing under a key, and the
-- requests of a list made one after the other, as every method of the reconciler makes its own.
pub mod Laws
pub mod Verdicts
pub mod Carried
use uran_api.Prelude.{
  Bool, Option, none, some, List, [], ◌∷◌, if◌then◌else◌, any, Text, String, map,
}
use uran_api.Exec.{pure, ◌>>=◌, ◌>>◌}
use uran_api.K8s.Objects.{Key, Object, Body, same_key}
use uran_api.K8s.Wire.{Request, put, create, drop, Action, request}

unfoldable pub key_of : Request → Key
key_of (put o) = o.at
key_of (create o) = o.at
key_of (drop k) = k

unfoldable pub body_of : Request → Option Body
body_of (put o) = some o.body
body_of (create o) = some o.body
body_of (drop k) = none

-- What the last request for the key left there; `none` when that was its deletion, or none was made.
unfoldable pub standing : List Request → Key → Option Body
unfolding key_of body_of
standing [] k = none
standing (r ∷ log) k = if same_key (key_of r) k then body_of r else standing log k

-- Whether a key is in a list of keys.
unfoldable pub has : List Key → Key → Bool
has ks k = any (λ j. same_key j k) ks

unfoldable pub carry_out : List Request → Action Unit
carry_out [] = pure tt
carry_out (r ∷ rs) = request r >> carry_out rs

-- A log to which a list of requests was added.
unfoldable pub onto : List Request → List Request → List Request
onto [] log = log
onto (r ∷ rs) log = onto rs (r ∷ log)

-- Whether a list of requests concerns the key.
unfoldable pub concerns : List Request → Key → Bool
unfolding key_of
concerns rs k = any (λ r. same_key (key_of r) k) rs

-- What the last request of a list that concerns the key says of it; `none` when none does.
unfoldable pub verdict : List Request → Key → Option (Option Body)
unfolding key_of body_of
verdict [] k = none
verdict (r ∷ rs) k = elim (verdict rs k) [
  | some b ↦ some b
  | none ↦ if same_key (key_of r) k then some (body_of r) else none
]
