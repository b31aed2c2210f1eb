-- ===== src/Client/Meaning.antt =====
-- cmd/uran with internal/api: what each command of the client means to the server.
use uran_api.Prelude.{
  ◌≡◌, ℕ, ℤ, Text, Bool, true, false, ◌&&◌, ◌||◌, some, List, [], ◌∷◌, ◌==◌, nat_eq, text_eq, All,
  leb,
}
use uran_api.Go.Text.Laws.{Free}
use uran_api.Go.Decimal.{parse_int}
use uran_api.Go.Decimal.RoundTrip.{IsInt64}
use uran_api.Go.Json.{in_int32}
use uran_api.Go.Spelling.{spell}
use uran_api.Client.{is_set}
use uran_api.Client.Commands.{
  Command, rollback, info, usage, metrics, set_scale, suspend, resume, health, disk_attach,
  disk_detach, domain_list, domain_add, domain_rm, env_list, env_set, env_rm, db_create, db_scale,
  db_list, db_connection, db_backup, db_backups, db_rm, token_create, token_list, token_rm, whoami,
  audit, registry_list, registry_add, registry_rm, member_list, member_add, member_set_role,
  member_rm, project_status, deploy_status, deploy_commit, deploy_image,
}
use uran_api.Api.Routes
use uran_api.Api.Routes.{Target}
use uran_api.Api.Calls.{
  Body, nothing, commit, one_text, one_word, env, registry, member, scale, disk, database,
  database_scale,
}

-- A parameter of a path.
pub data Argument : Type 0 where
  id : ℤ → Argument
  name : Text → Argument

pub record Meaning : Type 0 where
  pub target : Target
  pub arguments : List Argument
  pub body : Body

abbrev to_do : Target → List Argument → Body → Meaning
to_do target arguments body = record { target = target; arguments = arguments; body = body }

abbrev pub meaning : Command → Meaning
meaning (rollback deploy) = to_do Routes.rollback (id deploy ∷ []) (nothing)
meaning (info service) = to_do Routes.get_service (id service ∷ []) (nothing)
meaning (usage service) = to_do Routes.service_usage (id service ∷ []) (nothing)
meaning (metrics service) = to_do Routes.metrics (id service ∷ []) (nothing)
meaning (set_scale service replicas size low high) = to_do Routes.scale (id service ∷ []) (
    scale (
      some (record {
        replicas = replicas;
        instance_size = spell size;
        min_replicas = low;
        max_replicas = high;
      })))
meaning (suspend service) = to_do Routes.suspend (id service ∷ []) (nothing)
meaning (resume service) = to_do Routes.resume (id service ∷ []) (nothing)
meaning (health service path) = to_do Routes.set_health (id service ∷ []) (one_text (some path))
meaning (disk_attach service size path) =
    to_do Routes.attach_disk (id service ∷ []) (disk (some (record { size = size; path = path })))
meaning (disk_detach service) = to_do Routes.detach_disk (id service ∷ []) (nothing)
meaning (domain_list service) = to_do Routes.list_domains (id service ∷ []) (nothing)
meaning (domain_add service domain) =
    to_do Routes.add_domain (id service ∷ []) (one_text (some domain))
meaning (domain_rm service domain) =
    to_do Routes.delete_domain (id service ∷ name domain ∷ []) (nothing)
meaning (env_list service) = to_do Routes.list_env (id service ∷ []) (nothing)
meaning (env_set service secret build key value) =
    to_do Routes.set_env (id service ∷ [])
      (env (some (record { key = key; value = value; secret = secret; build_time = build })))
meaning (env_rm service key) = to_do Routes.delete_env (id service ∷ name key ∷ []) (nothing)
meaning (db_create project q db) = to_do Routes.create_database (id project ∷ []) (
    database (
      some (record {
        name = db;
        engine = spell q.engine;
        tier = spell q.tier;
        instances = q.instances;
        min_instances = q.min;
        max_instances = q.max;
        size = spell q.size;
        storage = q.storage;
        pooling = q.pooling;
        backups = q.backups;
      })))
meaning (db_scale db instances size storage) =
    to_do Routes.scale_database (id db ∷ []) (
      database_scale
        (some (record { instances = instances; size = spell size; storage = storage })))
meaning (db_list project) = to_do Routes.list_databases (id project ∷ []) (nothing)
meaning (db_connection db) = to_do Routes.database_connection (id db ∷ []) (nothing)
meaning (db_backup db) = to_do Routes.trigger_backup (id db ∷ []) (nothing)
meaning (db_backups db) = to_do Routes.list_backups (id db ∷ []) (nothing)
meaning (db_rm db) = to_do Routes.delete_database (id db ∷ []) (nothing)
meaning (token_create token) = to_do Routes.create_token ([]) (one_text (some token))
meaning token_list = to_do Routes.list_tokens ([]) (nothing)
meaning (token_rm token) = to_do Routes.delete_token (id token ∷ []) (nothing)
meaning whoami = to_do Routes.me ([]) (nothing)
meaning audit = to_do Routes.list_audit ([]) (nothing)
meaning (registry_list org) = to_do Routes.list_registry_creds (id org ∷ []) (nothing)
meaning (registry_add org host username password) =
    to_do Routes.add_registry_cred (id org ∷ [])
      (registry (some (record { registry = host; username = username; password = password })))
meaning (registry_rm org entry) =
    to_do Routes.delete_registry_cred (id org ∷ id entry ∷ []) (nothing)
meaning (member_list org) = to_do Routes.list_members (id org ∷ []) (nothing)
meaning (member_add org email role) =
    to_do Routes.add_member (id org ∷ [])
      (member (some (record { email = email; role = spell role })))
meaning (member_set_role org user role) =
    to_do Routes.set_member_role (id org ∷ id user ∷ []) (one_word (some (spell role)))
meaning (member_rm org user) = to_do Routes.remove_member (id org ∷ id user ∷ []) (nothing)
meaning (project_status project) = to_do Routes.project_status (id project ∷ []) (nothing)
meaning (deploy_status deploy) = to_do Routes.get_deploy (id deploy ∷ []) (nothing)
meaning (deploy_commit service sha) = to_do Routes.create_deploy (id service ∷ []) (commit sha)
meaning (deploy_image service sha image) =
    to_do Routes.image_deploy (id service ∷ []) (one_text (some image))

-- What a handler reads from a parameter.
abbrev pub Reads : List Argument → List Text → Type 0
Reads [] [] = Unit
Reads (id z ∷ args) (s ∷ ss) = (parse_int s ≡ some z) × Reads args ss
Reads (name t ∷ args) (s ∷ ss) = (s ≡ t) × Reads args ss
Reads _ _ = ⊥

abbrev pub IsId : ℤ → Type 0
IsId z = (is_set z ≡ true) × IsInt64 z

abbrev pub Int32 : ℤ → Type 0
Int32 z = in_int32 z ≡ true

abbrev pub Given : Text → Type 0
Given s = (s == []) ≡ false

-- What stands in a path as it is: letters, digits and `-._~`.
abbrev pub is_unreserved : ℕ → Bool
is_unreserved c =
    (leb b'a' c && leb c b'z')
    || ((leb b'A' c && leb c b'Z')
        || ((leb b'0' c && leb c b'9') || (c == b'-' || (c == b'.' || (c == b'_' || c == b'~')))))

abbrev pub IsSegment : Text → Type 0
IsSegment s = Given s × All (λ c. is_unreserved c ≡ true) s

-- The flags that the command asks for are given, with numbers that the server has room for.
abbrev pub Proper : Command → Type 0
Proper (rollback deploy) = IsId deploy
Proper (info service) = IsId service
Proper (usage service) = IsId service
Proper (metrics service) = IsId service
Proper (set_scale service replicas size low high) =
    IsId service × (Int32 replicas × (Int32 low × Int32 high))
Proper (suspend service) = IsId service
Proper (resume service) = IsId service
Proper (health service path) = IsId service
Proper (disk_attach service size path) = IsId service × (Given size × Given path)
Proper (disk_detach service) = IsId service
Proper (domain_list service) = IsId service
Proper (domain_add service domain) = IsId service
Proper (domain_rm service domain) = IsId service × IsSegment domain
Proper (env_list service) = IsId service
Proper (env_set service secret build key value) = IsId service × Free b'=' key
Proper (env_rm service key) = IsId service × IsSegment key
Proper (db_create project q db) = IsId project × (Int32 q.instances × (Int32 q.min × Int32 q.max))
Proper (db_scale db instances size storage) = IsId db × Int32 instances
Proper (db_list project) = IsId project
Proper (db_connection db) = IsId db
Proper (db_backup db) = IsId db
Proper (db_backups db) = IsId db
Proper (db_rm db) = IsId db
Proper (token_create token) = Given token
Proper token_list = Unit
Proper (token_rm token) = IsId token
Proper whoami = Unit
Proper audit = Unit
Proper (registry_list org) = IsId org
Proper (registry_add org host username password) =
    IsId org × (Given host × (Given username × Given password))
Proper (registry_rm org entry) = IsId org × IsId entry
Proper (member_list org) = IsId org
Proper (member_add org email role) = IsId org × Given email
Proper (member_set_role org user role) = IsId org × (IsId user × Given role)
Proper (member_rm org user) = IsId org × IsId user
Proper (project_status project) = IsId project
Proper (deploy_status deploy) = IsId deploy
Proper (deploy_commit service sha) = IsId service
Proper (deploy_image service sha image) = IsId service × Given image
