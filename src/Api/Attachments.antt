-- ===== src/Api/Attachments.antt =====
-- internal/api/env_handlers.go, domain_handlers.go, registry_handlers.go and backup_handlers.go. The
-- listing of backups, which reads the cluster, is left out, and so is the rollback, which is with the
-- deploys.
use uran_api.Prelude.{Text, Bool, not, ◌||◌, Option, List, [], ◌==◌, text_eq}
use uran_api.Exec.{raise, ◌>>=◌, ◌>>◌, catch, or_raise, guard}
use uran_api.Go.Text.{codes}
use uran_api.Go.Decimal.{format_nat}
use uran_api.Go.Unicode.{Unicode, trim_space, lower}
use uran_api.Rbac.{admin}
use uran_api.Store.{
  Error, not_found, invalid_transition, duplicate, violation, unavailable, notify,
  database_backup_channel,
}
use uran_api.Store.Models.{EnvVar, CustomDomain, RegistryCredential}
use uran_api.Store.Services.{
  set_env_var, list_env_vars, delete_env_var, list_custom_domains, list_registry_credentials,
}
use uran_api.Store.Attachments.{
  add_custom_domain, delete_custom_domain, add_registry_credential, delete_registry_credential,
}
use uran_api.Api.Access.{
  Request, Refusal, refusal, Handler, path_int, decoded, require_org_role, require_service_access,
  require_database_access,
}

pub record SetEnv : Type 0 where
  pub key : Text
  pub value : Text
  pub secret : Bool
  pub build_time : Bool

pub record AddRegistry : Type 0 where
  pub registry : Text
  pub username : Text
  pub password : Text

module _ (u : Unicode) where
  unfoldable pub handle_set_env : Request → Text → Option SetEnv → Handler Unit
  handle_set_env r param body = do
    svc ← require_service_access r param
    req ← decoded body (codes "key required")
    guard (not (trim_space u req.key == [])) (refusal 400 (codes "key required"))
    or_raise (set_env_var svc.id req.key req.value req.secret req.build_time)
        (refusal 500 (codes "could not set env var"))

  -- The body is the domain.
  unfoldable pub normal_domain : Text → Text
  normal_domain domain = lower u (trim_space u domain)

  unfoldable pub refuse_domain : Error → Refusal
  refuse_domain duplicate = refusal 409 (codes "domain already in use")
  refuse_domain not_found = refusal 500 (codes "could not add domain")
  refuse_domain invalid_transition = refusal 500 (codes "could not add domain")
  refuse_domain violation = refusal 500 (codes "could not add domain")
  refuse_domain unavailable = refusal 500 (codes "could not add domain")

  unfoldable pub handle_add_domain : Request → Text → Option Text → Handler CustomDomain
  unfolding normal_domain refuse_domain
  handle_add_domain r param body = do
    svc ← require_service_access r param
    req ← decoded body (codes "invalid body")
    guard (not (normal_domain req == [])) (refusal 400 (codes "domain required"))
    catch (add_custom_domain svc.id (normal_domain req)) (λ e. raise (refuse_domain e))

  unfoldable pub handle_delete_domain : Request → Text → Text → Handler Unit
  handle_delete_domain r param domain = do
    svc ← require_service_access r param
    deleted ←
        or_raise (delete_custom_domain svc.id (lower u domain))
          (refusal 500 (codes "could not delete domain"))
    guard deleted (refusal 404 (codes "domain not found"))

  unfoldable pub handle_add_registry_cred :
      Request → Text → Option AddRegistry → Handler RegistryCredential
  handle_add_registry_cred r param body = do
    org_id ← path_int param (codes "invalid org id")
    require_org_role r org_id admin
    req ← decoded body (codes "registry, username, password required")
    guard (not (trim_space u req.registry == [] || (req.username == [] || req.password == [])))
        (refusal 400 (codes "registry, username, password required"))
    or_raise (add_registry_credential org_id req.registry req.username req.password)
        (refusal 500 (codes "could not save credential"))

unfoldable pub handle_list_env : Request → Text → Handler (List EnvVar)
handle_list_env r param = do
  svc ← require_service_access r param
  or_raise (list_env_vars svc.id) (refusal 500 (codes "could not list env vars"))

unfoldable pub handle_delete_env : Request → Text → Text → Handler Unit
handle_delete_env r param key = do
  svc ← require_service_access r param
  deleted ← or_raise (delete_env_var svc.id key) (refusal 500 (codes "could not delete env var"))
  guard deleted (refusal 404 (codes "env var not found"))

unfoldable pub handle_list_domains : Request → Text → Handler (List CustomDomain)
handle_list_domains r param = do
  svc ← require_service_access r param
  or_raise (list_custom_domains svc.id) (refusal 500 (codes "could not list domains"))

unfoldable pub handle_list_registry_creds : Request → Text → Handler (List RegistryCredential)
handle_list_registry_creds r param = do
  org_id ← path_int param (codes "invalid org id")
  require_org_role r org_id admin
  or_raise (list_registry_credentials org_id) (refusal 500 (codes "could not list credentials"))

unfoldable pub handle_delete_registry_cred : Request → Text → Text → Handler Unit
handle_delete_registry_cred r param cred_param = do
  org_id ← path_int param (codes "invalid org id")
  require_org_role r org_id admin
  id ← path_int cred_param (codes "invalid credential id")
  deleted ←
      or_raise (delete_registry_credential org_id id)
        (refusal 500 (codes "could not delete credential"))
  guard deleted (refusal 404 (codes "credential not found"))

unfoldable pub handle_trigger_backup : Request → Text → Handler Unit
handle_trigger_backup r param = do
  d ← require_database_access r param
  let db = d.0
  guard db.backups (refusal 409 (codes "backups are not enabled for this database"))
  or_raise (notify database_backup_channel (format_nat db.id))
      (refusal 500 (codes "could not request backup"))
