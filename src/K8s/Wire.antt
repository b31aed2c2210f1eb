-- ===== src/K8s/Wire.antt =====
-- The reconciler's side of the API server: the requests that it makes. What the server answers is
-- `answers`, one answer for each request; what the server makes of a request is not decided here.
-- `quantity` is whether resource.ParseQuantity takes a text.
use uran_api.Prelude.{ℕ, suc, Bool, true, false, List, ◌∷◌, if◌then◌else◌, Text}
use uran_api.Exec.{ok, err, Exec}
use uran_api.K8s.Objects.{Key, Object, Body, volume_claim}

pub data Request : Type 0 where
  -- Apply, Create and Delete.
  put : Object → Request
  create : Object → Request
  drop : Key → Request

pub data Answer : Type 0 where
  done not_found failed : Answer

pub data Fault : Type 0 where
  refused timed_out panicked : Fault

pub record Wire : Type 0 where
  -- The requests that were met, newest first.
  pub log : List Request
  pub answers : ℕ → Answer
  pub sent : ℕ
  pub quantity : Text → Bool

abbrev pub Action : Type 0 → Type 0
Action A = Exec Wire Fault A

-- `ignoreNotFound`: an object that is not there need not be deleted.
unfoldable pub accepted : Request → Answer → Bool
accepted (drop k) failed = false
accepted (drop k) _ = true
accepted (put o) done = true
accepted (put o) _ = false
accepted (create o) done = true
accepted (create o) _ = false

abbrev pub size_parses : (Text → Bool) → Body → Bool
size_parses quantity (volume_claim size) = quantity size
size_parses quantity _ = true

-- The size of a volume is read by resource.MustParse, which panics on a text that is no quantity.
unfoldable pub is_built : (Text → Bool) → Request → Bool
is_built quantity (put o) = size_parses quantity o.body
is_built quantity (create o) = size_parses quantity o.body
is_built quantity (drop k) = true

abbrev send : Request → Action Unit
send r w =
    let w' = record w { sent = suc w.sent } in
    if accepted r (w.answers w.sent)
    then (ok tt, record w' { log = r ∷ w.log })
    else (err refused, w')

unfoldable pub request : Request → Action Unit
unfolding accepted is_built
request r w = if is_built w.quantity r then send r w else (err panicked, w)
