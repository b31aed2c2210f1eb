-- ===== src/Store/Services.antt =====
-- internal/store: services (resources.go, settings.go), env vars, custom domains and registry
-- credentials.
use uran_api.Prelude.{
  ℕ, suc, ℤ, pos, String, Text, Bool, false, not, ◌&&◌, List, [], ◌∷◌, reverse, ◌==◌, nat_eq,
  string_eq, text_eq, if◌then◌else◌, select, update, discard, any, length, ltb,
}
use uran_api.Exec.{ok, err}
use uran_api.Instance.{small}
use uran_api.Store.{violation, Query, statement, query}
use uran_api.Store.Models.{Project, Service, EnvVar, CustomDomain, RegistryCredential}

abbrev pub is_service : ℕ → Service → Bool
is_service id s = s.id == id

-- The columns that the insert does not name take the schema's defaults.
new_service : ℕ → ℕ → Text → Text → String → Text → Text → Text → Service
new_service id project_id name slug type repo_url branch schedule = record {
  id = id;
  project_id = project_id;
  name = name;
  slug = slug;
  type = type;
  repo_url = repo_url;
  branch = branch;
  schedule = schedule;
  replicas = pos 1;
  instance_size = small;
  health_path = [];
  min_replicas = pos 0;
  max_replicas = pos 0;
  disk_size = [];
  disk_path = [];
  suspended = false;
}

unfoldable pub create_service : ℕ → Text → Text → String → Text → Text → Text → Query Service
unfolding new_service
create_service project_id name slug type repo_url branch schedule = statement λ db.
    let s = new_service db.next_service project_id name slug type repo_url branch schedule in
    if any (λ (p : Project). p.id == project_id) db.projects
      && not (any (λ (x : Service). x.project_id == project_id && x.slug == slug) db.services)
    then ok (s, record db { services = s ∷ db.services; next_service = suc db.next_service })
    else err violation

unfoldable pub list_services : ℕ → Query (List Service)
list_services project_id =
    query λ db. ok (reverse (select (λ (s : Service). s.project_id == project_id) db.services))

-- `UPDATE services SET … WHERE id = $1`
unfoldable pub update_service : ℕ → (Service → Service) → Query Unit
update_service id f =
    statement λ db. ok (tt, record db { services = update (is_service id) f db.services })

unfoldable pub set_service_scaling : ℕ → ℤ → String → ℤ → ℤ → Query Unit
unfolding update_service
set_service_scaling id replicas instance_size min_replicas max_replicas = update_service id λ s.
    record s {
      replicas = replicas;
      instance_size = instance_size;
      min_replicas = min_replicas;
      max_replicas = max_replicas;
    }

unfoldable pub set_service_health : ℕ → Text → Query Unit
unfolding update_service
set_service_health id path = update_service id λ s. record s { health_path = path }

unfoldable pub set_service_disk : ℕ → Text → Text → Query Unit
unfolding update_service
set_service_disk id size path =
    update_service id λ s. record s { disk_size = size; disk_path = path }

unfoldable pub set_service_suspended : ℕ → Bool → Query Unit
unfolding update_service
set_service_suspended id suspended = update_service id λ s. record s { suspended = suspended }

abbrev pub is_env_var : ℕ → Text → EnvVar → Bool
is_env_var service_id key v = v.service_id == service_id && v.key == key

unfoldable pub set_env_var : ℕ → Text → Text → Bool → Bool → Query Unit
set_env_var service_id key value secret build_time = statement λ db.
    let v : EnvVar = record {
      service_id = service_id;
      key = key;
      value = value;
      secret = secret;
      build_time = build_time;
    } in
    if not (any (is_service service_id) db.services)
    then err violation
    else if any (is_env_var service_id key) db.env_vars
    then ok (tt, record db { env_vars = update (is_env_var service_id key) (λ _. v) db.env_vars })
    else ok (tt, record db { env_vars = v ∷ db.env_vars })

-- The order by key is left out: the callers collect the rows in a map, or show them.
unfoldable pub list_env_vars : ℕ → Query (List EnvVar)
list_env_vars service_id =
    query λ db. ok (select (λ (v : EnvVar). v.service_id == service_id) db.env_vars)

unfoldable pub delete_env_var : ℕ → Text → Query Bool
delete_env_var service_id key = statement λ db. ok (
  ltb 0 (length (select (is_env_var service_id key) db.env_vars)),
  record db { env_vars = discard (is_env_var service_id key) db.env_vars },
)

-- The order by name is left out.
unfoldable pub list_custom_domains : ℕ → Query (List CustomDomain)
list_custom_domains service_id =
    query λ db. ok (select (λ (c : CustomDomain). c.service_id == service_id) db.domains)

unfoldable pub list_registry_credentials : ℕ → Query (List RegistryCredential)
list_registry_credentials org_id = query λ db.
    ok (reverse (select (λ (c : RegistryCredential). c.org_id == org_id) db.registry_credentials))
