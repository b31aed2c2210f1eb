-- ===== src/Client/Agreement.antt =====
-- cmd/uran with internal/api: the client and the server agree on every command but the login and
-- the logs.
use uran_api.Prelude.{◌≡◌, some}
use uran_api.Go.Unicode.{Unicode}
use uran_api.Client.{Credentials, Terminal}
use uran_api.Client.Commands.{
  Command, run, rollback, info, usage, metrics, set_scale, suspend, resume, health, disk_attach,
  disk_detach, domain_list, domain_add, domain_rm, env_list, env_set, env_rm, db_create, db_scale,
  db_list, db_connection, db_backup, db_backups, db_rm, token_create, token_list, token_rm, whoami,
  audit, registry_list, registry_add, registry_rm, member_list, member_add, member_set_role,
  member_rm, project_status, deploy_status, deploy_commit, deploy_image,
}
use uran_api.Client.Meaning.{meaning, Proper}
use uran_api.Api.Routes.{Mux, Finds}
use uran_api.Client.Reaches.{Reached}
use uran_api.Client.Reaches.Deploys.{
  rollback-Reached, info-Reached, usage-Reached, metrics-Reached, project_status-Reached,
  deploy_status-Reached, deploy_commit-Reached, deploy_image-Reached,
}
use uran_api.Client.Reaches.Settings.{
  set_scale-Reached, suspend-Reached, resume-Reached, health-Reached, disk_attach-Reached,
  disk_detach-Reached,
}
use uran_api.Client.Reaches.Attachments.{
  domain_list-Reached, domain_add-Reached, domain_rm-Reached, env_list-Reached, env_set-Reached,
  env_rm-Reached,
}
use uran_api.Client.Reaches.Databases.{
  db_create-Reached, db_scale-Reached, db_list-Reached, db_connection-Reached, db_backup-Reached,
  db_backups-Reached, db_rm-Reached,
}
use uran_api.Client.Reaches.Account.{
  token_create-Reached, token_list-Reached, token_rm-Reached, whoami-Reached, audit-Reached,
  registry_list-Reached, registry_add-Reached, registry_rm-Reached,
}
use uran_api.Client.Reaches.Members.{
  member_list-Reached, member_add-Reached, member_set_role-Reached, member_rm-Reached,
}

-- Every command but `uran login` and `uran logs`, of a client with saved credentials, sends one
-- request, with the saved token, which the server hands to the handler that the command means, with
-- the path parameters and the decoded body that it means, if chi finds the route that fits a request where just one does. The flags that the
-- command asks for are given, ids have 64 bits and counts 32, a domain or a key that goes into the path
-- has only letters, digits and -._~, and a key that is set has no equals sign.
pub run-Reached :
    (u : Unicode) (mux : Mux) (finds : Finds mux) (cred : Credentials) (t : Terminal)
    → t.saved ≡ some cred
    → (c : Command) → Proper c
    → Reached mux (run u c) (meaning c) cred t
run-Reached u mux finds cred t saved (rollback deploy) h =
    rollback-Reached u mux finds cred t saved deploy h
run-Reached u mux finds cred t saved (info service) h =
    info-Reached u mux finds cred t saved service h
run-Reached u mux finds cred t saved (usage service) h =
    usage-Reached u mux finds cred t saved service h
run-Reached u mux finds cred t saved (metrics service) h =
    metrics-Reached u mux finds cred t saved service h
run-Reached u mux finds cred t saved (set_scale service replicas size low high) h =
    set_scale-Reached u mux finds cred t saved service replicas size low high h
run-Reached u mux finds cred t saved (suspend service) h =
    suspend-Reached u mux finds cred t saved service h
run-Reached u mux finds cred t saved (resume service) h =
    resume-Reached u mux finds cred t saved service h
run-Reached u mux finds cred t saved (health service path) h =
    health-Reached u mux finds cred t saved service path h
run-Reached u mux finds cred t saved (disk_attach service size path) h =
    disk_attach-Reached u mux finds cred t saved service size path h
run-Reached u mux finds cred t saved (disk_detach service) h =
    disk_detach-Reached u mux finds cred t saved service h
run-Reached u mux finds cred t saved (domain_list service) h =
    domain_list-Reached u mux finds cred t saved service h
run-Reached u mux finds cred t saved (domain_add service domain) h =
    domain_add-Reached u mux finds cred t saved service domain h
run-Reached u mux finds cred t saved (domain_rm service domain) h =
    domain_rm-Reached u mux finds cred t saved service domain h
run-Reached u mux finds cred t saved (env_list service) h =
    env_list-Reached u mux finds cred t saved service h
run-Reached u mux finds cred t saved (env_set service secret build key value) h =
    env_set-Reached u mux finds cred t saved service secret build key value h
run-Reached u mux finds cred t saved (env_rm service key) h =
    env_rm-Reached u mux finds cred t saved service key h
run-Reached u mux finds cred t saved (db_create project q db) h =
    db_create-Reached u mux finds cred t saved project q db h
run-Reached u mux finds cred t saved (db_scale db instances size storage) h =
    db_scale-Reached u mux finds cred t saved db instances size storage h
run-Reached u mux finds cred t saved (db_list project) h =
    db_list-Reached u mux finds cred t saved project h
run-Reached u mux finds cred t saved (db_connection db) h =
    db_connection-Reached u mux finds cred t saved db h
run-Reached u mux finds cred t saved (db_backup db) h =
    db_backup-Reached u mux finds cred t saved db h
run-Reached u mux finds cred t saved (db_backups db) h =
    db_backups-Reached u mux finds cred t saved db h
run-Reached u mux finds cred t saved (db_rm db) h = db_rm-Reached u mux finds cred t saved db h
run-Reached u mux finds cred t saved (token_create token) h =
    token_create-Reached u mux finds cred t saved token h
run-Reached u mux finds cred t saved token_list h = token_list-Reached u mux finds cred t saved
run-Reached u mux finds cred t saved (token_rm token) h =
    token_rm-Reached u mux finds cred t saved token h
run-Reached u mux finds cred t saved whoami h = whoami-Reached u mux finds cred t saved
run-Reached u mux finds cred t saved audit h = audit-Reached u mux finds cred t saved
run-Reached u mux finds cred t saved (registry_list org) h =
    registry_list-Reached u mux finds cred t saved org h
run-Reached u mux finds cred t saved (registry_add org host username password) h =
    registry_add-Reached u mux finds cred t saved org host username password h
run-Reached u mux finds cred t saved (registry_rm org entry) h =
    registry_rm-Reached u mux finds cred t saved org entry h
run-Reached u mux finds cred t saved (member_list org) h =
    member_list-Reached u mux finds cred t saved org h
run-Reached u mux finds cred t saved (member_add org email role) h =
    member_add-Reached u mux finds cred t saved org email role h
run-Reached u mux finds cred t saved (member_set_role org user role) h =
    member_set_role-Reached u mux finds cred t saved org user role h
run-Reached u mux finds cred t saved (member_rm org user) h =
    member_rm-Reached u mux finds cred t saved org user h
run-Reached u mux finds cred t saved (project_status project) h =
    project_status-Reached u mux finds cred t saved project h
run-Reached u mux finds cred t saved (deploy_status deploy) h =
    deploy_status-Reached u mux finds cred t saved deploy h
run-Reached u mux finds cred t saved (deploy_commit service sha) h =
    deploy_commit-Reached u mux finds cred t saved service sha h
run-Reached u mux finds cred t saved (deploy_image service sha image) h =
    deploy_image-Reached u mux finds cred t saved service sha image h
