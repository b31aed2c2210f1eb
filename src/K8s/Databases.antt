-- ===== src/K8s/Databases.antt =====
-- internal/k8s: database.go, redis.go and backup.go. `backup` is the reconciler's setting; the lists
-- of observations are what the polls find up to the deadline, `none` when a poll fails.
use uran_api.Prelude.{
  ℕ, pos, Text, Bool, not, ◌&&◌, Option, none, some, List, [], ◌∷◌, ◌++◌, if◌then◌else◌, ◌==◌,
  text_eq, leb,
}
use uran_api.Exec.{ok, err, pure, lift, Result, ◌>>◌}
use uran_api.Go.Text.{codes}
use uran_api.Instance.{small, get}
use uran_api.K8s.{PostgresSpec, pooler_name}
use uran_api.K8s.Objects.{
  key, object, pvc_name, backup_creds_name, Container, Deployment, BackupStore, string_data,
  deployment, volume_claim, service, postgres_cluster, pooler, scheduled_backup, Body,
}
use uran_api.K8s.Objects as Objects
use uran_api.K8s.Wire.{Action, Fault, timed_out, put, create, drop, request}
use uran_api.K8s.Policies.{ensure_namespace, apply_namespace_policies}
use uran_api.K8s.Workload.{delete_pvc, Rollout, wait_for_rollout}
pub mod Teardown

pub record BackupConfig : Type 0 where
  pub endpoint : Text
  pub bucket : Text
  pub access_key : Text
  pub secret_key : Text

unfoldable pub scheduled_name : Text → Text
scheduled_name cluster = cluster ++ codes "-daily"

-- At 02:00 every day.
unfoldable pub apply_scheduled_backup : Text → Text → Action Unit
unfolding scheduled_name
apply_scheduled_backup ns cluster = request (
    put (
      object "ScheduledBackup" ns (scheduled_name cluster)
        (scheduled_backup (codes "0 0 2 * * *") cluster)))

unfoldable pub trigger_backup : Text → Text → Text → Action Unit
trigger_backup ns cluster name = request (create (object "Backup" ns name (Objects.backup cluster)))

unfoldable pub reconcile_pgbouncer : Text → Text → Bool → Action Unit
reconcile_pgbouncer ns cluster enabled =
    if not enabled
    then request (drop (key "Pooler" ns (pooler_name cluster)))
    else request (put (object "Pooler" ns (pooler_name cluster) (pooler cluster)))

unfoldable pub delete_postgres : Text → Text → Action Unit
delete_postgres ns name = do
  request (drop (key "Pooler" ns (pooler_name name)))
  request (drop (key "Cluster" ns name))

module _ (backup : BackupConfig) where
  unfoldable pub backups_enabled : Bool
  backups_enabled = not (backup.bucket == [])

  unfoldable pub barman_object_store : Text → BackupStore
  barman_object_store cluster = record {
    destination_path = codes "s3://" ++ (backup.bucket ++ (codes "/" ++ cluster));
    endpoint_url = backup.endpoint;
    credentials = backup_creds_name cluster;
    retention_policy = "7d";
  }

  unfoldable pub apply_backup_creds : Text → Text → Action Unit
  apply_backup_creds ns cluster = request (
      put (
        object "Secret" ns (backup_creds_name cluster) (
          string_data (
            (codes "ACCESS_KEY_ID", backup.access_key)
            ∷ (codes "ACCESS_SECRET_KEY", backup.secret_key)
            ∷ []))))

  unfoldable pub postgres_body : Text → PostgresSpec → Body
  unfolding backups_enabled barman_object_store
  postgres_body name spec =
      postgres_cluster spec.instances spec.storage (get spec.size)
        (if spec.backups && backups_enabled then some (barman_object_store name) else none)

  unfoldable pub provision_postgres : Text → Text → PostgresSpec → Action Unit
  unfolding ensure_namespace apply_namespace_policies apply_backup_creds postgres_body
      apply_scheduled_backup
  provision_postgres ns name spec = do
    ensure_namespace ns
    apply_namespace_policies ns
    if spec.backups && backups_enabled then apply_backup_creds ns name else pure tt
    request (put (object "Cluster" ns name (postgres_body name spec)))
    if spec.backups && backups_enabled then apply_scheduled_backup ns name else pure tt

-- Instances that are ready, at each poll.
unfoldable pub poll_ready : List (Option ℕ) → Result Fault Unit
poll_ready [] = err timed_out
poll_ready (none ∷ os) = poll_ready os
poll_ready (some ready ∷ os) = let rest = poll_ready os in if leb 1 ready then ok tt else rest

unfoldable pub wait_postgres_ready : (Text → Text → List (Option ℕ)) → Text → Text → Action Unit
unfolding poll_ready
wait_postgres_ready observed ns name = lift (poll_ready (observed ns name))

abbrev pub redis_port : ℕ
redis_port = 6379

unfoldable pub redis_container : Text → Container
redis_container name = record {
  name = "redis";
  image = codes "redis:7-alpine";
  args = codes "--appendonly" ∷ codes "yes" ∷ [];
  port = some redis_port;
  resources = get small;
  port_env = none;
  env_from = none;
  probe = none;
  mount = some (pvc_name name, codes "/data");
  pull_secret = none;
}

unfoldable pub redis_deployment : Text → Deployment
unfolding redis_container
redis_deployment name = record {
  container = redis_container name;
  replicas = some (pos 1);
  strategy = some (record { max_surge = 0; max_unavailable = 1 });
}

unfoldable pub provision_redis : Text → Text → Text → Action Unit
unfolding ensure_namespace apply_namespace_policies redis_deployment
provision_redis ns name storage = do
  ensure_namespace ns
  apply_namespace_policies ns
  request (put (object "PersistentVolumeClaim" ns (pvc_name name) (volume_claim storage)))
  request (put (object "Deployment" ns name (deployment (redis_deployment name))))
  request (put (object "Service" ns name (service redis_port redis_port)))

unfoldable pub wait_redis_ready : (Text → Text → List (Option Rollout)) → Text → Text → Action Unit
unfolding wait_for_rollout
wait_redis_ready = wait_for_rollout

unfoldable pub delete_redis : Text → Text → Action Unit
unfolding delete_pvc
delete_redis ns name = do
  request (drop (key "Deployment" ns name))
  request (drop (key "Service" ns name))
  delete_pvc ns (pvc_name name)
