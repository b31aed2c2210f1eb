-- ===== src/Store/Lineage.antt =====
-- What a deploy's row may become. `Lineage` relates the tables before and after an operation:
-- while ids are unique, every row of the table after it is new, in a state that deploys are created
-- in, or has come from the row of that id by moves of the state machine.
pub mod Operations
use mathlib.Core.List.{Memᴰ}
use mathlib.Core.Path.{subst}
use uran_api.Prelude.{
  ℕ, ◌≤◌, ◌<◌, String, ◌≡◌, refl, sym, List, [], ◌∷◌, arith, nat_eq, string_eq, All, All-map,
}
use uran_api.Exec.Respects.{IsPreorder}
use uran_api.Deploy.{status_queued, status_deploying}
use uran_api.Deploy.Lifecycle.{◌⟶*◌, here, ⟶*-trans}
use uran_api.Store.{Db}
use uran_api.Store.Models.{Deploy}

-- The ids of a table fall along the list and stay below the next id.
abbrev pub Falling : ℕ → List Deploy → Type 0
Falling n [] = Unit
Falling n (d ∷ ds) = (d.id < n) × Falling d.id ds

pub data IsBirth (s : String) : Type 0 where
  to_build : s ≡ status_queued → IsBirth s
  imaged : s ≡ status_deploying → IsBirth s

-- Where a row comes from.
pub data Origin (before : Db) (d : Deploy) : Type 0 where
  old :
      (b : Deploy)
      → Memᴰ b before.deploys
      → b.id ≡ d.id
      → b.service_id ≡ d.service_id
      → b.kind ≡ d.kind
      → b.status ⟶* d.status
      → Origin before d
  fresh : before.next_deploy ≤ d.id → (s : String) → IsBirth s → s ⟶* d.status → Origin before d

pub record Lineage (s t : Db) : Type 0 where
  pub keyed : Falling s.next_deploy s.deploys → Falling t.next_deploy t.deploys
  pub grows : s.next_deploy ≤ t.next_deploy
  pub traced : Falling s.next_deploy s.deploys → All (Origin s) t.deploys

pub All-mem {ℓ κ} : {A : Type ℓ} (P : A → Type κ) (xs : List A) {x : A} → All P xs → Memᴰ x xs → P x
All-mem P [] a m = elim m [ ]
All-mem P (y ∷ xs) a (Memᴰ.head e) = subst P (sym e) a.0
All-mem P (y ∷ xs) a (Memᴰ.tail m) = All-mem P xs a.1 m

All-self {ℓ} : {A : Type ℓ} (xs : List A) → All (λ x. Memᴰ x xs) xs
All-self [] = tt
All-self (x ∷ xs) = (Memᴰ.head refl, All-map _ _ xs (λ y m. Memᴰ.tail m) (All-self xs))

pub same_origins : (db : Db) → All (Origin db) db.deploys
same_origins db = All-map _ _ db.deploys (λ d m. old d m refl refl refl here) (All-self db.deploys)

Origin-extend :
    (a b : Db) (d : Deploy)
    → a.next_deploy ≤ b.next_deploy
    → All (Origin a) b.deploys
    → Origin b d
    → Origin a d
Origin-extend a b d le all (fresh h s f p) = fresh (omega arith) s f p
Origin-extend a b d le all (old c m i v k p) = go (All-mem (Origin a) b.deploys all m)
  where
    go : Origin a c → Origin a d
    go (old x n i' v' k' q) = old x n (cc) (cc) (cc) (⟶*-trans q p)
    go (fresh h s f q) = fresh (omega arith) s f (⟶*-trans q p)

pub Lineage-IsPreorder : IsPreorder Lineage
Lineage-IsPreorder = record {
  rfl = λ s. record { keyed = λ h. h; grows = omega arith; traced = λ _. same_origins s };
  trans = λ s t u a b. record {
    keyed = λ h. b.keyed (a.keyed h);
    grows = omega (arith, a.grows, b.grows);
    traced = λ h.
        All-map _ _ u.deploys (λ d o. Origin-extend s t d a.grows (a.traced h) o)
          (b.traced (a.keyed h));
  };
}
