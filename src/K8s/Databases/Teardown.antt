-- ===== src/K8s/Databases/Teardown.antt =====
-- internal/k8s: what `DeleteRedis` leaves after `ProvisionRedis`, and `DeletePostgres` after
-- `ProvisionPostgres`.
use uran_api.Prelude.{
  ◌≡◌, refl, ap, ◌∙◌, Text, true, false, none, some, List, [], ◌∷◌, ◌++◌, map, any, if◌then◌else◌,
  ◌&&◌,
}
use mathlib.Core.Option.{get_or}
use uran_api.Exec.{ok, pure}
use uran_api.Go.Text.{codes}
use uran_api.K8s.{PostgresSpec, pooler_name}
use uran_api.K8s.Objects.{
  Key, key, object, same_key, pvc_name, backup_creds_name, string_data, deployment, volume_claim,
  service, scheduled_backup,
}
use uran_api.K8s.Wire.{Wire, Request, put, drop}
use uran_api.K8s.Workload.{delete_pvc}
use uran_api.K8s.Databases.{
  BackupConfig, backups_enabled, apply_backup_creds, apply_scheduled_backup, scheduled_name,
  postgres_body, provision_postgres, delete_postgres, redis_port, redis_deployment, provision_redis,
  delete_redis,
}
use uran_api.K8s.Ledger.{standing, has, concerns, verdict, key_of, body_of}
use uran_api.K8s.Ledger.Laws.{carry-elsewhere, carry-log, standing-onto}
use uran_api.K8s.Ledger.Verdicts.{
  All-concerns, has-All, has_first, has_rest, verdict-hit, verdict-later, verdict-append,
}
use uran_api.K8s.Ledger.Carried.{
  Does, Does-request, Does-step, Ends, Ends-Does, Ends-state, Ends-ok,
}
use uran_api.K8s.Plan.{namespace_plan, shared_keys}
use uran_api.K8s.Plan.Keys.{namespace-Elsewhere}
use uran_api.K8s.Plan.Carried.{namespace-Ends}
use uran_api.K8s.Teardown.{drops_all, drops-gone, drops-elsewhere}

abbrev pub redis_keys : Text → Text → List Key
redis_keys ns name =
    key "Deployment" ns name
    ∷ key "Service" ns name
    ∷ key "PersistentVolumeClaim" ns (pvc_name name)
    ∷ []

redis_objects : Text → Text → Text → List Request
redis_objects ns name storage =
    put (object "PersistentVolumeClaim" ns (pvc_name name) (volume_claim storage))
    ∷ put (object "Deployment" ns name (deployment (redis_deployment name)))
    ∷ put (object "Service" ns name (service redis_port redis_port))
    ∷ []

redis_plan : Text → Text → Text → List Request
unfolding redis_objects
redis_plan ns name storage = namespace_plan ns ++ redis_objects ns name storage

redis-Ends :
    (ns name storage : Text)
    → Ends (provision_redis ns name storage) (redis_plan ns name storage) (pure tt)
unfolding provision_redis redis_plan
redis-Ends ns name storage =
    namespace-Ends ns _ _ _ (Ends-Does _ _ (Does-step _ _ _ (Does-step _ _ _ (Does-request _))))

delete_redis-Does : (ns name : Text) → Does (delete_redis ns name) (map drop (redis_keys ns name))
unfolding delete_redis delete_pvc
delete_redis-Does ns name = Does-step _ _ _ (Does-step _ _ _ (Does-request _))

redis-concerns :
    (ns name storage : Text) (k : Key)
    → has (redis_keys ns name) k ≡ false
    → has (shared_keys ns) k ≡ false
    → concerns (redis_plan ns name storage) k ≡ false
unfolding redis_plan redis_objects key_of
redis-concerns ns name storage k own common =
    let (deployment_, (service_, (claim, _))) = has-All _ k own in
    All-concerns _ k (
      namespace-Elsewhere k ns (redis_objects ns name storage) common
        (claim, (deployment_, (service_, tt))))

-- However far `ProvisionRedis` came, a `DeleteRedis` of the same database that returns no error
-- leaves none of its three objects, and leaves every other object that is not shared by the
-- services of the namespace as it was before.
pub delete_redis-provision_redis :
    (ns name storage : Text) (k : Key) (w : Wire)
    → has (shared_keys ns) k ≡ false
    → let w' = (provision_redis ns name storage w).1 in
      (delete_redis ns name w').0 ≡ ok tt
      → standing (delete_redis ns name w').1.log k
        ≡ (if has (redis_keys ns name) k then none else standing w.log k)
unfolding pure
delete_redis-provision_redis ns name storage k w common h =
    drops_all _ _ (delete_redis-Does ns name) k _ h (λ own.
      ap (λ v. standing v.log k) (Ends-state _ _ _ (redis-Ends ns name storage) w (λ v. refl))
      ∙ carry-elsewhere _ k w (redis-concerns ns name storage k own common))

abbrev pub postgres_keys : Text → Text → List Key
postgres_keys ns name = key "Pooler" ns (pooler_name name) ∷ key "Cluster" ns name ∷ []

postgres_keys-cluster :
    (ns name : Text) → has (postgres_keys ns name) (key "Cluster" ns name) ≡ true
postgres_keys-cluster ns name =
    has_rest _ (key "Cluster" ns name) (key "Cluster" ns name ∷ [])
      (has_first (key "Cluster" ns name) [])

postgres_keys-pooler :
    (ns name : Text) → has (postgres_keys ns name) (key "Pooler" ns (pooler_name name)) ≡ true
postgres_keys-pooler ns name =
    has_first (key "Pooler" ns (pooler_name name)) (key "Cluster" ns name ∷ [])

delete_postgres-Does :
    (ns name : Text) → Does (delete_postgres ns name) (map drop (postgres_keys ns name))
unfolding delete_postgres
delete_postgres-Does ns name = Does-step _ _ _ (Does-request _)

module _ (backup : BackupConfig) where
  -- With backups.
  postgres_plan : Text → Text → PostgresSpec → List Request
  postgres_plan ns name spec =
      namespace_plan ns
      ++ (put (
            object "Secret" ns (backup_creds_name name) (
              string_data (
                (codes "ACCESS_KEY_ID", backup.access_key)
                ∷ (codes "ACCESS_SECRET_KEY", backup.secret_key)
                ∷ [])))
          ∷ put (object "Cluster" ns name (postgres_body backup name spec))
          ∷ put (
              object "ScheduledBackup" ns (scheduled_name name)
                (scheduled_backup (codes "0 0 2 * * *") name))
          ∷ [])

  postgres-Ends :
      (ns name : Text) (spec : PostgresSpec)
      → (spec.backups && backups_enabled backup) ≡ true
      → Ends (provision_postgres backup ns name spec) (postgres_plan ns name spec) (pure tt)
  unfolding provision_postgres postgres_plan apply_backup_creds apply_scheduled_backup
  postgres-Ends ns name spec b =
      rw b (
        namespace-Ends ns _ _ _
          (Ends-Does _ _ (Does-step _ _ _ (Does-step _ _ _ (Does-request _)))))

  schedule_verdict :
      (ns name : Text) (spec : PostgresSpec)
      → verdict (postgres_plan ns name spec) (key "ScheduledBackup" ns (scheduled_name name))
        ≡ some (some (scheduled_backup (codes "0 0 2 * * *") name))
  unfolding postgres_plan key_of body_of
  schedule_verdict ns name spec =
      verdict-append (namespace_plan ns) _ _ _
        (verdict-later _ _ _ _ (verdict-later _ _ _ _ (verdict-hit _ [] tt)))

  -- If `ProvisionPostgres` has set up backups without an error and `DeletePostgres` of the same
  -- database returns no error after it, then the cluster and its pooler are gone, and the daily
  -- backup of the cluster that is no more still stands.
  pub delete_postgres-leaves :
      (ns name : Text) (spec : PostgresSpec) (w : Wire)
      → (spec.backups && backups_enabled backup) ≡ true
      → let (r, w') = provision_postgres backup ns name spec w in
        r ≡ ok tt
        → let (r', w'') = delete_postgres ns name w' in
          r' ≡ ok tt
          → (standing w''.log (key "Cluster" ns name) ≡ none)
            × (standing w''.log (key "Pooler" ns (pooler_name name)) ≡ none)
            × (standing w''.log (key "ScheduledBackup" ns (scheduled_name name))
                ≡ some (scheduled_backup (codes "0 0 2 * * *") name))
  unfolding pure has same_key any
  delete_postgres-leaves ns name spec w b h g =
      let made = postgres-Ends ns name spec b in
      let dropped = delete_postgres-Does ns name in
      let w' = (provision_postgres backup ns name spec w).1 in
      let schedule = key "ScheduledBackup" ns (scheduled_name name) in
      (
        drops-gone _ (postgres_keys ns name) dropped (key "Cluster" ns name) w' g
            (postgres_keys-cluster ns name),
        drops-gone _ (postgres_keys ns name) dropped (key "Pooler" ns (pooler_name name)) w' g
            (postgres_keys-pooler ns name),
        drops-elsewhere _ (postgres_keys ns name) dropped schedule w' refl
            ∙ (ap (λ v. standing v.log schedule) (Ends-state _ _ _ made w (λ v. refl))
                ∙ (ap (λ log. standing log schedule) (carry-log _ w (Ends-ok _ _ _ made w h))
                    ∙ (standing-onto _ w.log schedule
                        ∙ ap (λ v. get_or v (standing w.log schedule))
                            (schedule_verdict ns name spec)))),
      )
