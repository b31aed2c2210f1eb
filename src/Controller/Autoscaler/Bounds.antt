-- ===== src/Controller/Autoscaler/Bounds.antt =====
-- How far the autoscaler goes.
use uran_api.Prelude.{
  ℕ, zero, suc, ◌+◌, ◌≤◌, ℤ, pos, negsuc, ◌≤ℤ◌, Text, List, ◌∷◌, some, int_beq, ◌≡◌, false, arith,
  add_one, sub_one, add_one-le, le-sub_one,
}
use uran_api.K8s.{Call, provision_postgres}
use uran_api.Naming.{namespace_for_org, database_cluster}
use uran_api.Store.Models.{Database}
use uran_api.Controller.Autoscaler.{desired_instances, LastScale}

add_one-up : (a b c : ℤ) → c ≤ℤ a → c ≤ℤ add_one a
add_one-up (pos n) b c h = ground arith
add_one-up (negsuc zero) b c h = ground arith
add_one-up (negsuc (suc n)) b c h = ground arith

sub_one-down : (a c : ℤ) → a ≤ℤ c → sub_one a ≤ℤ c
sub_one-down (pos zero) c h = ground arith
sub_one-down (pos (suc n)) c h = ground arith
sub_one-down (negsuc n) c h = ground arith

-- The autoscaler keeps a number of instances that is within the bounds of its database within them.
pub desired_instances-bounds :
    (util : ℕ) (db : Database)
    → db.min_instances ≤ℤ db.instances
    → db.instances ≤ℤ db.max_instances
    → (db.min_instances ≤ℤ desired_instances util db)
      × (desired_instances util db ≤ℤ db.max_instances)
unfolding desired_instances
desired_instances-bounds util db lo hi = ground (
  arith,
  add_one-le db.instances db.max_instances,
  le-sub_one db.min_instances db.instances,
  add_one-up db.instances db.instances db.min_instances lo,
  sub_one-down db.instances db.max_instances hi,
)

abbrev pub rescaled : Text → Database → ℤ → Call
rescaled namespace db n =
    provision_postgres namespace (database_cluster db.slug)
      (record { instances = n; size = db.size; storage = db.storage; backups = false })

-- What a round may ask the cluster for.
pub data Round (last : LastScale) (now org_id : ℕ) (db : Database) (before after : List Call)
    : Type 0 where
  nothing : after ≡ before → Round last now org_id db before after
  once :
      (n : ℤ)
      → after ≡ rescaled (namespace_for_org org_id) db n ∷ before
      → db.min_instances ≤ℤ n
      → n ≤ℤ db.max_instances
      → int_beq n db.instances ≡ false
      → ((t : ℕ) → last db.id ≡ some t → t + 60 ≤ now)
      → Round last now org_id db before after
