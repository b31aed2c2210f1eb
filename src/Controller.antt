-- ===== src/Controller.antt =====
-- internal/controller/processor.go: the tasks that bring the cluster in line with the tables. What a
-- call on the cluster answers besides success is a parameter: `uri_of` is what the secret of a
-- Postgres cluster holds.
pub mod Autoscaler
pub mod Sampler
pub mod Payloads
pub mod Lifecycle
pub mod GoLive
pub mod Delivered
use uran_api.Prelude.{
  ℕ, ℤ, pos, negsuc, String, Text, Bool, true, false, not, ◌&&◌, Option, none, some, List, [], ◌∷◌,
  ◌++◌, map, if◌then◌else◌, ◌==◌, string_eq, text_eq, lt_int,
}
use uran_api.Exec.{Result, ok, err, Exec, pure, raise, ◌>>=◌, ◌>>◌, catch, try, or_raise, guard}
use uran_api.Go.Text.{codes, cut, split, split_n}
use uran_api.Go.Decimal.{format_nat, parse_int}
use uran_api.Deploy.{status_live, status_failed, kind_production, kind_preview}
use uran_api.Naming.{namespace_for_org, workload_name, database_cluster}
use uran_api.K8s.{
  ServiceSpec, PostgresSpec, RegistryCred, apply, delete, delete_namespace, provision_redis,
  wait_redis, provision_postgres, wait_postgres, read_uri, reconcile_pooler, delete_redis,
  delete_postgres, trigger_backup, postgres_read_uri, postgres_pooled_uri, redis_connection_uri,
}
use uran_api.Store.{Error, World, Query, call}
use uran_api.Store.Models.{Service, Deploy, Database, EnvVar, CustomDomain, RegistryCredential}
use uran_api.Store.Deploys.{deploy_by_id, service_by_id, update_deploy_status}
use uran_api.Store.Services.{list_env_vars, list_custom_domains, list_registry_credentials}
use uran_api.Store.Databases.{
  database_by_id, set_database_status, set_database_connection, db_status_failed,
}
use uran_api.Task.{Stop, stopped, Task}
use uran_api.Go.Map.{put}

abbrev service_port : ℕ
service_port = 8080

unfoldable pub fail : ℕ → Task Unit
fail deploy_id = do try (update_deploy_status deploy_id status_failed); pure tt

-- `if err != nil { log; p.fail(…); return }`
unfoldable pub or_fail : {A : Type 0} → ℕ → Query A → Task A
unfolding fail
or_fail deploy_id m = catch m (λ _. fail deploy_id >> raise stopped)

unfoldable pub env_map : List (Text × Text) → List EnvVar → List (Text × Text)
unfolding put
env_map m [] = m
env_map m (v ∷ vs) = env_map (put v.key v.value m) vs

creds_of : Result Error (List RegistryCredential) → List RegistryCred
creds_of (err e) = []
creds_of (ok cs) =
    map
      (λ (c : RegistryCredential). record {
        registry = c.registry;
        username = c.username;
        password = c.password;
      })
      cs

unfoldable pub pull_creds : ℕ → Task (List RegistryCred)
unfolding creds_of
pull_creds org_id = do cs ← try (list_registry_credentials org_id); pure (creds_of cs)

unfoldable pub domain_names : ℕ → Query (List Text)
domain_names service_id = do
  ds ← list_custom_domains service_id
  pure (map (λ (d : CustomDomain). d.domain) ds)

-- Custom domains are for production deploys.
unfoldable pub domains_of : ℕ → Deploy → Task (List Text)
unfolding domain_names or_fail
domains_of deploy_id d =
    if d.kind == kind_production then or_fail deploy_id (domain_names d.service_id) else pure []

unfoldable pub spec_of :
    Deploy → Service → ℕ → List EnvVar → List Text → List RegistryCred → ServiceSpec
unfolding env_map
spec_of d svc org_id vars domains creds = record {
  namespace = namespace_for_org org_id;
  name = workload_name svc.slug d.kind d.pr_number;
  type = svc.type;
  image = d.image;
  port = service_port;
  schedule = svc.schedule;
  env = env_map [] vars;
  domains = domains;
  replicas = svc.replicas;
  instance_size = svc.instance_size;
  health_path = svc.health_path;
  min_replicas = svc.min_replicas;
  max_replicas = svc.max_replicas;
  disk_size = svc.disk_size;
  disk_path = svc.disk_path;
  pull_creds = creds;
  suspended = svc.suspended;
}

-- A deploy without an image fails.
unfoldable pub require_image : ℕ → Deploy → Task Unit
unfolding fail
require_image deploy_id d = if d.image == [] then fail deploy_id >> raise stopped else pure tt

unfoldable pub apply_and_go_live : ℕ → ServiceSpec → Task Unit
unfolding or_fail
apply_and_go_live deploy_id spec = do
  or_fail deploy_id (call (apply spec))
  or_raise (update_deploy_status deploy_id status_live) stopped
  pure tt

-- From the domains on.
unfoldable pub release : ℕ → Deploy → Service → ℕ → List EnvVar → Task Unit
unfolding domains_of pull_creds apply_and_go_live
release deploy_id d svc org_id vars = do
  domains ← domains_of deploy_id d
  creds ← pull_creds org_id
  apply_and_go_live deploy_id (spec_of d svc org_id vars domains creds)

unfoldable pub reconcile : ℕ → Task Unit
unfolding require_image or_fail release
reconcile deploy_id = do
  d ← or_raise (deploy_by_id deploy_id) stopped
  require_image deploy_id d
  s ← or_fail deploy_id (service_by_id d.service_id)
  vars ← or_fail deploy_id (list_env_vars d.service_id)
  release deploy_id d s.0 s.1 vars

-- `parseTeardown`
both : Option ℤ → Option ℤ → Option (ℤ × ℤ)
both (some a) (some b) = some (a, b)
both _ _ = none

unfoldable pub parse_teardown : Text → Option (ℤ × ℤ)
unfolding both
parse_teardown payload = elim (cut b':' payload) [
  | none ↦ none
  | some (id, pr) ↦ both (parse_int id) (parse_int pr)
]

-- No row has a negative id or the id 0.
row_id : ℤ → ℕ
row_id (pos n) = n
row_id (negsuc n) = 0

teardown_parsed : Option (ℤ × ℤ) → Task Unit
unfolding row_id
teardown_parsed none = pure tt
teardown_parsed (some (service_id, pr_number)) = do
  s ← or_raise (service_by_id (row_id service_id)) stopped
  or_raise
      (call
        (delete (namespace_for_org s.1) (workload_name (s.0).slug kind_preview (some pr_number))))
      stopped
  pure tt

unfoldable pub teardown : Text → Task Unit
unfolding parse_teardown teardown_parsed
teardown payload = teardown_parsed (parse_teardown payload)

-- The `switch` of `resourceTeardown` on the parts of the payload.
dispatch_teardown : List Text → Task Unit
dispatch_teardown (kind ∷ ns ∷ []) =
    if kind == codes "ns" then or_raise (call (delete_namespace ns)) stopped else pure tt
dispatch_teardown (kind ∷ ns ∷ slug ∷ []) =
    if kind == codes "svc" then or_raise (call (delete ns slug)) stopped else pure tt
dispatch_teardown _ = pure tt

unfoldable pub resource_teardown : Text → Task Unit
unfolding dispatch_teardown
resource_teardown payload = dispatch_teardown (split_n 2 b':' payload)

drop_database : List Text → Task Unit
drop_database (namespace ∷ cluster ∷ engine ∷ []) =
    or_raise
      (call (
        if engine == codes "redis"
        then delete_redis namespace cluster
        else delete_postgres namespace cluster))
      stopped
drop_database _ = pure tt

unfoldable pub teardown_database : Text → Task Unit
unfolding drop_database
teardown_database payload = drop_database (split b':' payload)

unfoldable pub fail_database : ℕ → Task Unit
fail_database db_id = do try (set_database_status db_id db_status_failed); pure tt

unfoldable pub provision_redis_engine : Database → Text → Text → Query (Text × Text)
provision_redis_engine db namespace cluster = do
  call (provision_redis namespace cluster db.storage)
  call (wait_redis namespace cluster)
  pure (redis_connection_uri namespace cluster, [])

module _ (uri_of : Text → Text → Text) where
  unfoldable pub provision_postgres_engine : Database → Text → Text → Query (Text × Text)
  provision_postgres_engine db namespace cluster = do
    call (
        provision_postgres namespace cluster (record {
          instances = db.instances;
          size = db.size;
          storage = db.storage;
          backups = db.backups;
        }))
    call (wait_postgres namespace cluster)
    call (read_uri namespace cluster)
    let uri = uri_of namespace cluster
    pure (uri, if lt_int (pos 1) db.instances then postgres_read_uri uri cluster else [])

  unfoldable pub provision_engine : Database → Text → Text → Query (Text × Text)
  unfolding provision_redis_engine provision_postgres_engine
  provision_engine db namespace cluster =
      if db.engine == "redis"
      then provision_redis_engine db namespace cluster
      else provision_postgres_engine db namespace cluster

  -- The optional pooler, for Postgres.
  unfoldable pub pooled_uri_of : Database → Text → Text → Text → Query Text
  pooled_uri_of db namespace cluster uri =
      if db.engine == "postgres"
      then (do
        call (reconcile_pooler namespace cluster db.pooling)
        pure (if db.pooling then postgres_pooled_uri uri cluster else []))
      else pure []

  -- `if err != nil { log; p.failDatabase(…); return }`
  unfoldable pub or_fail_database : {A : Type 0} → ℕ → Query A → Task A
  unfolding fail_database
  or_fail_database db_id m = catch m (λ _. fail_database db_id >> raise stopped)

  unfoldable pub reconcile_database : ℕ → Task Unit
  unfolding provision_engine pooled_uri_of or_fail_database
  reconcile_database db_id = do
    r ← or_raise (database_by_id db_id) stopped
    let namespace = namespace_for_org r.1
    let cluster = database_cluster (r.0).slug
    uris ← or_fail_database db_id (provision_engine r.0 namespace cluster)
    pooled ← or_fail_database db_id (pooled_uri_of r.0 namespace cluster uris.0)
    or_raise (set_database_connection db_id uris.0 uris.1 pooled) stopped

-- The backup's name holds the Unix time.
unfoldable pub backup_database : ℕ → ℕ → Task Unit
backup_database unix_now db_id = do
  r ← or_raise (database_by_id db_id) stopped
  let cluster = database_cluster (r.0).slug
  or_raise
      (call (
        trigger_backup (namespace_for_org r.1) cluster
          (cluster ++ (codes "-ondemand-" ++ format_nat unix_now))))
      stopped
