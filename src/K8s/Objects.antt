-- ===== src/K8s/Objects.antt =====
-- internal/k8s: the objects that the reconciler writes, under the keys of the API server. An object
-- holds the fields that the controller applies; quantities are numbers of their unit.
use uran_api.Prelude.{ℕ, ℤ, String, Text, Bool, Option, List, ◌++◌, ◌&&◌, ◌==◌, string_eq, text_eq}
use uran_api.Go.Text.{codes}
use uran_api.Instance.{Resources}

pub record Key : Type 0 where
  pub kind : String
  pub namespace : Text
  pub name : Text

abbrev pub key : String → Text → Text → Key
key kind namespace name = record { kind = kind; namespace = namespace; name = name }

unfoldable pub same_key : Key → Key → Bool
same_key j k = j.kind == k.kind && (j.namespace == k.namespace && j.name == k.name)

unfoldable pub env_secret_name : Text → Text
env_secret_name name = name ++ codes "-env"

unfoldable pub tls_secret_name : Text → Text
tls_secret_name name = name ++ codes "-tls"

unfoldable pub http_route_name : Text → Text
http_route_name name = name ++ codes "-http"

unfoldable pub pvc_name : Text → Text
pvc_name name = name ++ codes "-data"

unfoldable pub backup_creds_name : Text → Text
backup_creds_name cluster = cluster ++ codes "-backup-creds"

abbrev pub pull_secret_name : Text
pull_secret_name = codes "uran-pull"

-- Two routes to health: an HTTP GET, or a TCP connect.
pub data Probe : Type 0 where
  http_get : Text → ℕ → Probe
  tcp_socket : ℕ → Probe

-- The one container of a pod, with the volume claim that it mounts.
pub record Container : Type 0 where
  pub name : String
  pub image : Text
  pub args : List Text
  pub port : Option ℕ
  pub resources : Resources
  pub port_env : Option Text
  pub env_from : Option Text
  pub probe : Option Probe
  pub mount : Option (Text × Text)
  pub pull_secret : Option Text

-- Surge and unavailable pods of a rolling update.
pub record Rolling : Type 0 where
  pub max_surge : ℕ
  pub max_unavailable : ℕ

pub record Deployment : Type 0 where
  pub container : Container
  pub replicas : Option ℤ
  pub strategy : Option Rolling

pub record Quota : Type 0 where
  pub pods : ℕ
  pub requests_cpu : ℕ
  pub requests_memory : ℕ
  pub limits_cpu : ℕ
  pub limits_memory : ℕ

-- From where a pod may be reached.
pub data Peer : Type 0 where
  same_namespace : Peer
  namespace_named : Text → Peer

pub record Route : Type 0 where
  pub service : Text
  pub rule : Text
  pub entry_point : String
  pub tls_secret : Option Text

pub record Login : Type 0 where
  pub username : Text
  pub password : Text

-- Path, endpoint, the secret with the credentials, and how long backups are kept.
pub record BackupStore : Type 0 where
  pub destination_path : Text
  pub endpoint_url : Text
  pub credentials : Text
  pub retention_policy : String

pub data Body : Type 0 where
  managed_namespace : Body
  resource_quota : Quota → Body
  limit_range : Resources → Body
  network_policy : List Peer → Body
  string_data : List (Text × Text) → Body
  docker_config : List (Text × Login) → Body
  deployment : Deployment → Body
  cron_job : Text → Container → Body
  volume_claim : Text → Body
  autoscaler : Text → ℤ → ℤ → ℕ → Body
  service : ℕ → ℕ → Body
  certificate : Text → List Text → Text → Body
  ingress_route : Route → Body
  -- Instances, storage, resources, and where backups go, if anywhere.
  postgres_cluster : ℤ → Text → Resources → Option BackupStore → Body
  pooler : Text → Body
  scheduled_backup : Text → Text → Body
  backup : Text → Body

pub record Object : Type 0 where
  pub at : Key
  pub body : Body

abbrev pub object : String → Text → Text → Body → Object
object kind namespace name body = record { at = key kind namespace name; body = body }
