-- ===== src/Client/Commands.antt =====
-- cmd/uran/main.go: the commands of the client, with their flags and arguments parsed. The login, which
-- has no session yet, and the streams of logs are not among them.
use uran_api.Prelude.{ℤ, pos, Text, Bool, Option, [], ◌∷◌, ◌++◌}
use uran_api.Go.Unicode.{Unicode}
use uran_api.Go.Json.{Json}
use uran_api.Client.{Cli}
use uran_api.Client.Services.{
  cmd_deploy, cmd_status, cmd_rollback, cmd_info, cmd_usage, cmd_metrics, cmd_scale, cmd_suspend,
  cmd_resume, cmd_health, cmd_disk_attach, cmd_disk_detach,
}
use uran_api.Client.Attachments.{
  cmd_domain_list, cmd_domain_add, cmd_domain_rm, cmd_env_list, cmd_env_set, cmd_env_rm,
}
use uran_api.Client.Databases.{
  NewDatabase, cmd_db_create, cmd_db_scale, cmd_db_list, cmd_db_connection, cmd_db_backup,
  cmd_db_backups, cmd_db_rm,
}
use uran_api.Client.Orgs.{
  cmd_token_create, cmd_token_list, cmd_token_rm, cmd_whoami, cmd_audit, cmd_registry_list,
  cmd_registry_add, cmd_registry_rm, cmd_member_list, cmd_member_add, cmd_member_set_role,
  cmd_member_rm,
}

pub data Command : Type 0 where
  rollback : (deploy : ℤ) → Command
  info : (service : ℤ) → Command
  usage : (service : ℤ) → Command
  metrics : (service : ℤ) → Command
  set_scale : (service : ℤ) → (replicas : ℤ) → (size : Text) → (low : ℤ) → (high : ℤ) → Command
  suspend : (service : ℤ) → Command
  resume : (service : ℤ) → Command
  health : (service : ℤ) → (path : Text) → Command
  disk_attach : (service : ℤ) → (size : Text) → (path : Text) → Command
  disk_detach : (service : ℤ) → Command
  domain_list : (service : ℤ) → Command
  domain_add : (service : ℤ) → (domain : Text) → Command
  domain_rm : (service : ℤ) → (domain : Text) → Command
  env_list : (service : ℤ) → Command
  env_set :
      (service : ℤ) → (secret : Bool) → (build : Bool) → (key : Text) → (value : Text) → Command
  env_rm : (service : ℤ) → (key : Text) → Command
  db_create : (project : ℤ) → (q : NewDatabase) → (db : Text) → Command
  db_scale : (db : ℤ) → (instances : ℤ) → (size : Text) → (storage : Text) → Command
  db_list : (project : ℤ) → Command
  db_connection : (db : ℤ) → Command
  db_backup : (db : ℤ) → Command
  db_backups : (db : ℤ) → Command
  db_rm : (db : ℤ) → Command
  token_create : (token : Text) → Command
  token_list : Command
  token_rm : (token : ℤ) → Command
  whoami : Command
  audit : Command
  registry_list : (org : ℤ) → Command
  registry_add : (org : ℤ) → (host : Text) → (username : Text) → (password : Text) → Command
  registry_rm : (org : ℤ) → (entry : ℤ) → Command
  member_list : (org : ℤ) → Command
  member_add : (org : ℤ) → (email : Text) → (role : Text) → Command
  member_set_role : (org : ℤ) → (user : ℤ) → (role : Text) → Command
  member_rm : (org : ℤ) → (user : ℤ) → Command
  project_status : (project : ℤ) → Command
  deploy_status : (deploy : ℤ) → Command
  deploy_commit : (service : ℤ) → (sha : Text) → Command
  deploy_image : (service : ℤ) → (sha : Text) → (image : Text) → Command

module _ (u : Unicode) where
  abbrev pub run : Command → Cli (Option Json)
  run (rollback deploy) = cmd_rollback u deploy
  run (info service) = cmd_info u service
  run (usage service) = cmd_usage u service
  run (metrics service) = cmd_metrics u service
  run (set_scale service replicas size low high) = cmd_scale u service replicas size low high
  run (suspend service) = cmd_suspend u service
  run (resume service) = cmd_resume u service
  run (health service path) = cmd_health u service path
  run (disk_attach service size path) = cmd_disk_attach u service size path
  run (disk_detach service) = cmd_disk_detach u service
  run (domain_list service) = cmd_domain_list u service
  run (domain_add service domain) = cmd_domain_add u service (domain ∷ [])
  run (domain_rm service domain) = cmd_domain_rm u service (domain ∷ [])
  run (env_list service) = cmd_env_list u service
  run (env_set service secret build key value) =
      cmd_env_set u service secret build ((key ++ b'=' ∷ value) ∷ [])
  run (env_rm service key) = cmd_env_rm u service (key ∷ [])
  run (db_create project q db) = cmd_db_create u project q (db ∷ [])
  run (db_scale db instances size storage) = cmd_db_scale u db instances size storage
  run (db_list project) = cmd_db_list u project
  run (db_connection db) = cmd_db_connection u db
  run (db_backup db) = cmd_db_backup u db
  run (db_backups db) = cmd_db_backups u db
  run (db_rm db) = cmd_db_rm u db
  run (token_create token) = cmd_token_create u token
  run token_list = cmd_token_list u
  run (token_rm token) = cmd_token_rm u token
  run whoami = cmd_whoami u
  run audit = cmd_audit u
  run (registry_list org) = cmd_registry_list u org
  run (registry_add org host username password) = cmd_registry_add u org host username password
  run (registry_rm org entry) = cmd_registry_rm u org entry
  run (member_list org) = cmd_member_list u org
  run (member_add org email role) = cmd_member_add u org email role
  run (member_set_role org user role) = cmd_member_set_role u org user role
  run (member_rm org user) = cmd_member_rm u org user
  run (project_status project) = cmd_status u (pos 0) project
  run (deploy_status deploy) = cmd_status u deploy (pos 0)
  run (deploy_commit service sha) = cmd_deploy u service sha []
  run (deploy_image service sha image) = cmd_deploy u service sha image
