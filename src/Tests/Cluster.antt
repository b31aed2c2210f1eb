-- ===== src/Tests/Cluster.antt =====
-- The work on the cluster at concrete inputs: a service with a disk, a database with backups, a
-- server that does what it is asked.
use uran_api.Prelude.{
  arith, pos, string_eq, ◌≡◌, refl, Text, true, false, Option, none, some, List, [], ◌∷◌, ◌&&◌,
  text_beq, any, if◌then◌else◌,
}
use uran_api.Exec.{ok, ◌>>=◌}
use uran_api.Go.Text.{codes}
use uran_api.Svctype
use uran_api.K8s.{ServiceSpec, PostgresSpec, has_disk, autoscaled, pooler_name}
use uran_api.K8s.Objects.{
  Key, key, same_key, Deployment, deployment, env_secret_name, scheduled_backup,
}
use uran_api.K8s.Wire.{Wire, request}
use uran_api.K8s.Workload.{Rollout, apply, delete}
use uran_api.K8s.Databases.{
  BackupConfig, backups_enabled, scheduled_name, provision_postgres, delete_postgres,
}
use uran_api.K8s.Ledger.{standing, has}
use uran_api.K8s.Plan.{owned_keys, shared_keys}
use uran_api.K8s.Convergence.Replicas.{disk_single_writer}
use uran_api.K8s.Convergence.Completion.{now, apply-done}
use uran_api.K8s.Convergence.Suspension.{cron_suspension}
use uran_api.K8s.Teardown.{delete-apply}
use uran_api.K8s.Isolation.{apply-other_org}
use uran_api.Naming.{namespace_for_org}
use uran_api.K8s.Databases.Teardown.{delete_postgres-leaves}
use uran_api.Tests.World.{a_rollout, a_rollout_complete, a_wire}

abbrev a_spec : ServiceSpec
a_spec = record {
  namespace = codes "org-1";
  name = codes "web";
  type = "web";
  image = codes "img";
  port = 8080;
  schedule = [];
  env = (codes "A", codes "1") ∷ [];
  domains = [];
  replicas = pos 3;
  instance_size = "small";
  health_path = [];
  min_replicas = pos 1;
  max_replicas = pos 4;
  disk_size = codes "1Gi";
  disk_path = codes "/data";
  pull_creds = [];
  suspended = false;
}

abbrev polls : Text → Text → List (Option Rollout)
polls namespace name = some a_rollout ∷ []

abbrev domain : Text
domain = codes "uran.dev"

abbrev issuer : Text
issuer = codes "letsencrypt"

apply-done_example : (apply domain issuer polls a_spec a_wire).0 ≡ ok tt
apply-done_example =
    apply-done domain issuer polls a_spec a_wire (λ n. refl) (λ not_cron disk. refl)
      (λ not_cron. now a_rollout [] a_rollout_complete)

a_spec-applied : (apply domain issuer polls a_spec a_wire).0 ≡ ok tt
a_spec-applied =
    apply-done domain issuer polls a_spec a_wire (λ n. refl) (λ not_cron disk. refl)
      (λ not_cron. now a_rollout [] a_rollout_complete)

a_spec-disk : has_disk a_spec ≡ true
unfolding has_disk text_beq
a_spec-disk = refl

disk_single_writer_example :
    let w' = (apply domain issuer polls a_spec a_wire).1 in
    ((d : Deployment) × (standing w'.log (key "Deployment" (codes "org-1") (codes "web"))
        ≡ some (deployment d))
      × (d.replicas ≡ some (pos 1))
      × (false ≡ false → d.strategy ≡ some (record { max_surge = 0; max_unavailable = 1 })))
    × (standing w'.log (key "HorizontalPodAutoscaler" (codes "org-1") (codes "web")) ≡ none)
disk_single_writer_example =
    disk_single_writer domain issuer polls a_spec a_wire refl a_spec-disk a_spec-applied

abbrev applied : Wire
applied = (apply domain issuer polls a_spec a_wire).1

a_spec-deleted : (delete (codes "org-1") (codes "web") applied).0 ≡ ok tt
unfolding apply delete ◌>>=◌ request has_disk text_beq autoscaled Svctype.is_routable
a_spec-deleted = refl

abbrev a_key : Key
a_key = key "Secret" (codes "org-1") (env_secret_name (codes "web"))

unshared : has (shared_keys (codes "org-1")) a_key ≡ false
unfolding has any same_key text_beq env_secret_name
unshared = refl

delete-apply_example :
    standing (delete (codes "org-1") (codes "web") applied).1.log a_key
    ≡ (if has (owned_keys (codes "org-1") (codes "web")) a_key then none else none)
unfolding standing
delete-apply_example = delete-apply domain issuer polls a_spec a_key a_wire unshared a_spec-deleted

abbrev backups : BackupConfig
backups = record {
  endpoint = codes "https://s3";
  bucket = codes "uran";
  access_key = codes "k";
  secret_key = codes "s";
}

abbrev a_database : PostgresSpec
a_database = record { instances = pos 1; size = "small"; storage = codes "1Gi"; backups = true }

abbrev a_cluster : Wire
a_cluster = (provision_postgres backups (codes "org-1") (codes "db-main") a_database a_wire).1

backups-enabled : (a_database.backups && backups_enabled backups) ≡ true
unfolding backups_enabled text_beq
backups-enabled = refl

a_cluster-made :
    (provision_postgres backups (codes "org-1") (codes "db-main") a_database a_wire).0 ≡ ok tt
unfolding provision_postgres ◌>>=◌ request text_beq backups_enabled
a_cluster-made = refl

a_cluster-deleted : (delete_postgres (codes "org-1") (codes "db-main") a_cluster).0 ≡ ok tt
unfolding provision_postgres delete_postgres ◌>>=◌ request text_beq backups_enabled
a_cluster-deleted = refl

delete_postgres-leaves_example :
    let after = (delete_postgres (codes "org-1") (codes "db-main") a_cluster).1.log in
    (standing after (key "Cluster" (codes "org-1") (codes "db-main")) ≡ none)
    × (standing after (key "Pooler" (codes "org-1") (pooler_name (codes "db-main"))) ≡ none)
    × (standing after (key "ScheduledBackup" (codes "org-1") (scheduled_name (codes "db-main")))
        ≡ some (scheduled_backup (codes "0 0 2 * * *") (codes "db-main")))
delete_postgres-leaves_example =
    delete_postgres-leaves backups (codes "org-1") (codes "db-main") a_database a_wire
      backups-enabled a_cluster-made a_cluster-deleted

abbrev a_job : ServiceSpec
a_job = record a_spec { type = "cron"; schedule = codes "* * * * *" }

cron_suspension_example :
    apply domain issuer polls (record a_job { suspended = true }) a_wire
    ≡ apply domain issuer polls a_job a_wire
cron_suspension_example = cron_suspension domain issuer polls a_job true a_wire refl

abbrev mine : ServiceSpec
mine = record a_spec { namespace = namespace_for_org 3 }

abbrev theirs : ServiceSpec
theirs = record a_spec { namespace = namespace_for_org 4 }

-- A cluster that holds the service of another org.
abbrev shared_cluster : Wire
shared_cluster = (apply domain issuer polls theirs a_wire).1

abbrev their_deployment : Key
their_deployment = key "Deployment" (namespace_for_org 4) (codes "web")

apply-other_org_example :
    (standing (apply domain issuer polls mine shared_cluster).1.log their_deployment
      ≡ standing shared_cluster.log their_deployment)
    × (standing (delete mine.namespace mine.name shared_cluster).1.log their_deployment
        ≡ standing shared_cluster.log their_deployment)
apply-other_org_example =
    apply-other_org domain issuer polls mine 3 4 their_deployment shared_cluster (omega arith)
      (omega arith) (λ e. omega arith) refl refl
