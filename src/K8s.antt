-- ===== src/K8s.antt =====
-- internal/k8s: what the controller asks of the cluster, each method recorded with its arguments. The
-- child modules have the work of the methods on the API server.
pub mod Objects
pub mod Wire
pub mod Policies
pub mod Workload
pub mod Databases
pub mod Ledger
pub mod Plan
pub mod Convergence
pub mod Teardown
pub mod Isolation
use uran_api.Prelude.{
  ℕ, ℤ, pos, String, Text, Bool, not, ◌&&◌, List, [], ◌++◌, ◌==◌, text_eq, lt_int,
}
use uran_api.Go.Text.{codes, replace_once}

pub record RegistryCred : Type 0 where
  pub registry : Text
  pub username : Text
  pub password : Text

pub record ServiceSpec : Type 0 where
  pub namespace : Text
  pub name : Text
  pub type : String
  pub image : Text
  pub port : ℕ
  pub schedule : Text
  pub env : List (Text × Text)
  pub domains : List Text
  pub replicas : ℤ
  pub instance_size : String
  pub health_path : Text
  pub min_replicas : ℤ
  pub max_replicas : ℤ
  pub disk_size : Text
  pub disk_path : Text
  pub pull_creds : List RegistryCred
  pub suspended : Bool

-- `hasDisk` and `autoscaled`.
unfoldable pub has_disk : ServiceSpec → Bool
has_disk s = not (s.disk_size == []) && not (s.disk_path == [])

unfoldable pub autoscaled : ServiceSpec → Bool
unfolding has_disk
autoscaled s = lt_int (pos 0) s.max_replicas && (not (has_disk s) && not s.suspended)

pub record PostgresSpec : Type 0 where
  pub instances : ℤ
  pub size : String
  pub storage : Text
  pub backups : Bool

-- A method call on the Reconciler; the first texts are a namespace and a name.
pub data Call : Type 0 where
  apply : ServiceSpec → Call
  delete : Text → Text → Call
  delete_namespace : Text → Call
  provision_redis : Text → Text → Text → Call
  wait_redis : Text → Text → Call
  provision_postgres : Text → Text → PostgresSpec → Call
  wait_postgres : Text → Text → Call
  read_uri : Text → Text → Call
  reconcile_pooler : Text → Text → Bool → Call
  delete_redis : Text → Text → Call
  delete_postgres : Text → Text → Call
  trigger_backup : Text → Text → Text → Call

unfoldable pub postgres_read_uri : Text → Text → Text
postgres_read_uri rw_uri name = replace_once (name ++ codes "-rw") (name ++ codes "-ro") rw_uri

unfoldable pub pooler_name : Text → Text
pooler_name cluster = cluster ++ codes "-pool"

unfoldable pub postgres_pooled_uri : Text → Text → Text
unfolding pooler_name
postgres_pooled_uri rw_uri cluster =
    replace_once (cluster ++ codes "-rw") (pooler_name cluster) rw_uri

-- redisPort is 6379.
unfoldable pub redis_connection_uri : Text → Text → Text
redis_connection_uri namespace name =
    codes "redis://" ++ (name ++ (codes "." ++ (namespace ++ codes ":6379")))
