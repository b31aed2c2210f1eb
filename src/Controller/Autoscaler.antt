-- ===== src/Controller/Autoscaler.antt =====
-- internal/controller/dbautoscaler.go: instances of autoscale-tier databases follow the CPU load.
-- `metrics` stands for the metrics reader: the CPU millicores of each pod of a cluster. Sums and
-- percentages are exact: they stay far below 2 ^ 63.
pub mod Bounds
use uran_api.Prelude.{
  ℕ, suc, ◌+◌, ◌-◌, ◌*◌, ◌/◌, ℤ, String, Text, Bool, true, false, not, ◌&&◌, ◌||◌, Option, none,
  some, List, [], ◌∷◌, if◌then◌else◌, ◌==◌, nat_eq, ltb, leb, lt_int, add_one, sub_one, int_beq,
  length,
}
use uran_api.Exec.{Result, ok, err, Exec, pure, raise, ◌>>=◌, ◌>>◌, catch, try, or_raise, guard}
use uran_api.Instance.{get}
use uran_api.Naming.{namespace_for_org, database_cluster}
use uran_api.K8s.{PostgresSpec, provision_postgres}
use uran_api.Store.{Error, World, Query, call}
use uran_api.Store.Models.{Database}
use uran_api.Store.Databases.{list_autoscale_databases, set_database_instances}
use uran_api.Task.{Stop, stopped, Task}

abbrev pub db_scale_up_pct : ℕ
db_scale_up_pct = 70

abbrev pub db_scale_down_pct : ℕ
db_scale_down_pct = 30

-- In seconds.
abbrev pub db_autoscale_cooldown : ℕ
db_autoscale_cooldown = 60

-- `lastScale`: when a database was scaled last.
abbrev pub LastScale : Type 0
LastScale = ℕ → Option ℕ

unfoldable pub total : List ℕ → ℕ
total [] = 0
total (m ∷ ms) = m + total ms

-- The average CPU use in percent of a pod's request, if it is known.
unfoldable pub cluster_cpu_utilization : Result Error (List ℕ) → String → Option ℕ
unfolding total
cluster_cpu_utilization (err e) size = none
cluster_cpu_utilization (ok ms) size =
    let request_milli = (get size).cpu_request in
    if length ms == 0 || request_milli == 0
    then none
    else some (total ms / length ms * 100 / request_milli)

-- The `switch` of `autoscaleOne`.
unfoldable pub desired_instances : ℕ → Database → ℤ
desired_instances util db =
    if ltb db_scale_up_pct util && lt_int db.instances db.max_instances
    then add_one db.instances
    else if ltb util db_scale_down_pct && lt_int db.min_instances db.instances
    then sub_one db.instances
    else db.instances

unfoldable pub cooldown_elapsed : LastScale → ℕ → ℕ → Bool
cooldown_elapsed last now db_id = elim (last db_id) [
  | none ↦ true
  | some t ↦ leb db_autoscale_cooldown (now - t)
]

unfoldable pub mark_scaled : LastScale → ℕ → ℕ → LastScale
mark_scaled last now db_id i = if i == db_id then some now else last i

provisioned : LastScale → ℕ → Database → ℤ → Result Error Unit → Task LastScale
unfolding mark_scaled
provisioned last now db desired (err e) = pure last
provisioned last now db desired (ok _) = do
  stored ← try (set_database_instances db.id desired)
  pure (elim stored [ ok _ ↦ mark_scaled last now db.id | err e ↦ last ])

-- The spec names no backups.
unfoldable pub rescale : LastScale → ℕ → Database → ℕ → ℤ → Task LastScale
unfolding provisioned
rescale last now db org_id desired = do
  r ← try (
      call (
        provision_postgres (namespace_for_org org_id) (database_cluster db.slug)
          (record { instances = desired; size = db.size; storage = db.storage; backups = false })))
  provisioned last now db desired r

module _ (metrics : Text → Text → Result Error (List ℕ)) where
  unfoldable pub autoscale_one : LastScale → ℕ → Database × ℕ → Task LastScale
  unfolding cluster_cpu_utilization desired_instances cooldown_elapsed rescale
  autoscale_one last now (db, org_id) =
      elim (cluster_cpu_utilization (metrics (namespace_for_org org_id) (database_cluster db.slug))
        db.size) [
          | none ↦ pure last
          | some util ↦
              let desired = desired_instances util db in
              if int_beq desired db.instances || not (cooldown_elapsed last now db.id)
              then pure last
              else rescale last now db org_id desired
        ]

  -- The loop of `autoscaleDatabases`.
  unfoldable pub autoscale_each : LastScale → ℕ → List (Database × ℕ) → Task LastScale
  unfolding autoscale_one
  autoscale_each last now [] = pure last
  autoscale_each last now (db ∷ dbs) = do
    last' ← autoscale_one last now db
    autoscale_each last' now dbs

  unfoldable pub autoscale_databases : LastScale → ℕ → Task LastScale
  unfolding autoscale_each
  autoscale_databases last now = do
    dbs ← or_raise list_autoscale_databases stopped
    autoscale_each last now dbs
