-- ===== src/Api/Resources.antt =====
-- The handlers of internal/api/resource_handlers.go on orgs, projects and services.
use uran_api.Prelude.{
  String, Text, not, ◌&&◌, Option, List, [], ◌∷◌, if◌then◌else◌, ◌==◌, string_eq, text_eq,
}
use uran_api.Exec.{Result, ok, err, pure, ◌>>=◌, ◌>>◌, try, or_raise, guard}
use uran_api.Go.Text.{codes}
use uran_api.Go.Unicode.{Unicode, trim_space}
use uran_api.Naming.{namespace_for_org}
use uran_api.Rbac.{admin, owner}
use uran_api.Svctype
use uran_api.Store.{Error, resource_teardown_channel, database_teardown_channel, notify}
use uran_api.Store.Models.{Org, Project, Service, Database}
use uran_api.Store.Tenants.{
  create_org, list_orgs, update_org, delete_org, create_project, update_project, delete_project,
  project_by_id, list_projects,
}
use uran_api.Store.Services.{create_service, list_services}
use uran_api.Store.Databases.{list_databases}
use uran_api.Api.Access.{
  Request, Refusal, refusal, Handler, path_int, decoded, authorize_org, require_org_role,
  require_org_member, require_project_access,
}
use uran_api.Api.Slug.{slugify}
use uran_api.Api.Payload.{namespace_teardown, service_teardown, database_teardown}

module _ (u : Unicode) where
  -- The name of a body that must have one.
  unfoldable pub named : Option Text → Handler Text
  named body = do
    name ← decoded body (codes "name required")
    guard (not (trim_space u name == [])) (refusal 400 (codes "name required"))
    pure name

  -- The slug of an org must not be empty.
  unfoldable pub org_slug : Text → Handler Text
  org_slug name = do
    guard (not (slugify u name == []))
        (refusal 400 (codes "name must contain alphanumeric characters"))
    pure (slugify u name)

  unfoldable pub handle_create_org : Request → Option Text → Handler Org
  unfolding named org_slug
  handle_create_org r body = do
    name ← named body
    slug ← org_slug name
    or_raise (create_org r.user_id name slug)
        (refusal 409 (codes "could not create org (slug may be taken)"))

  unfoldable pub handle_update_org : Request → Text → Option Text → Handler Org
  unfolding named org_slug
  handle_update_org r param body = do
    org_id ← path_int param (codes "invalid org id")
    require_org_role r org_id admin
    name ← named body
    slug ← org_slug name
    or_raise (update_org org_id name slug)
        (refusal 409 (codes "could not rename org (slug may be taken)"))

  unfoldable pub handle_create_project : Request → Text → Option Text → Handler Project
  unfolding named
  handle_create_project r param body = do
    org_id ← require_org_member r param
    name ← named body
    or_raise (create_project org_id name (slugify u name))
        (refusal 409 (codes "could not create project (slug may be taken)"))

  unfoldable pub handle_update_project : Request → Text → Option Text → Handler Project
  unfolding named
  handle_update_project r param body = do
    project_id ← require_project_access r param
    name ← named body
    or_raise (update_project project_id name (slugify u name))
        (refusal 409 (codes "could not rename project (slug may be taken)"))

unfoldable pub handle_delete_org : Request → Text → Handler Unit
handle_delete_org r param = do
  org_id ← path_int param (codes "invalid org id")
  require_org_role r org_id owner
  or_raise (delete_org org_id) (refusal 500 (codes "could not delete org"))
  try {F = Refusal}
      (notify resource_teardown_channel (namespace_teardown (namespace_for_org org_id)))
  pure tt

unfoldable pub handle_list_orgs : Request → Handler (List Org)
handle_list_orgs r = or_raise (list_orgs r.user_id) (refusal 500 (codes "could not list orgs"))

unfoldable pub handle_list_projects : Request → Text → Handler (List Project)
handle_list_projects r param = do
  org_id ← require_org_member r param
  or_raise (list_projects org_id) (refusal 500 (codes "could not list projects"))

unfoldable pub handle_get_project : Request → Text → Handler Project
handle_get_project r param = do
  project_id ← path_int param (codes "invalid project id")
  p ← or_raise (project_by_id project_id) (refusal 404 (codes "project not found"))
  authorize_org r p.org_id
  pure p

-- A failed listing gives nothing to take down.
abbrev listed : {A : Type 0} → Result Error (List A) → List A
listed (ok xs) = xs
listed (err e) = []

unfoldable pub teardown_services : Text → List Service → Handler Unit
teardown_services namespace [] = pure tt
teardown_services namespace (s ∷ ss) = do
  try {F = Refusal} (notify resource_teardown_channel (service_teardown namespace s.slug))
  teardown_services namespace ss

unfoldable pub teardown_databases : Text → List Database → Handler Unit
teardown_databases namespace [] = pure tt
teardown_databases namespace (d ∷ ds) = do
  try {F = Refusal} (notify database_teardown_channel (database_teardown namespace d.slug d.engine))
  teardown_databases namespace ds

-- What is to be taken down is read before the rows go.
unfoldable pub handle_delete_project : Request → Text → Handler Unit
unfolding teardown_services teardown_databases
handle_delete_project r param = do
  project_id ← path_int param (codes "invalid project id")
  p ← or_raise (project_by_id project_id) (refusal 404 (codes "project not found"))
  require_org_role r p.org_id admin
  services ← try (list_services project_id)
  databases ← try (list_databases project_id)
  or_raise (delete_project project_id) (refusal 500 (codes "could not delete project"))
  teardown_services (namespace_for_org p.org_id) (listed services)
  teardown_databases (namespace_for_org p.org_id) (listed databases)

pub record CreateService : Type 0 where
  pub name : Text
  pub type : String
  pub repo_url : Text
  pub branch : Text
  pub schedule : Text

module _ (u : Unicode) where
  unfoldable pub handle_create_service : Request → Text → Option CreateService → Handler Service
  handle_create_service r param body = do
    project_id ← require_project_access r param
    q ← decoded body (codes "name required")
    guard (not (trim_space u q.name == [])) (refusal 400 (codes "name required"))
    let type = if q.type == "" then Svctype.web else q.type
    guard (Svctype.is_valid type) (refusal 400 (codes "invalid service type"))
    guard (not (Svctype.requires_schedule type && trim_space u q.schedule == []))
        (refusal 400 (codes "cron services require a schedule"))
    let branch = if q.branch == [] then codes "main" else q.branch
    or_raise (create_service project_id q.name (slugify u q.name) type q.repo_url branch q.schedule)
        (refusal 409 (codes "could not create service (slug may be taken)"))

unfoldable pub handle_list_services : Request → Text → Handler (List Service)
handle_list_services r param = do
  project_id ← require_project_access r param
  or_raise (list_services project_id) (refusal 500 (codes "could not list services"))
