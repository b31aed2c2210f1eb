-- ===== src/Api/Routes.antt =====
-- internal/api/server.go: the routes, and what a handler takes from its request. chi, which finds the
-- route of a request, is the parameter `mux`.
use uran_api.Prelude.{
  ◌≡◌, String, Text, Bool, false, Option, none, some, List, [], ◌∷◌, ◌++◌, ◌==◌, string_eq, text_eq,
  nat_eq, if◌then◌else◌,
}
use uran_api.Go.Text.{codes, split}

-- The handlers.
pub data Target : Type 0 where
  health register login github_webhook logout me list_audit list_tokens create_token : Target
  delete_token list_orgs create_org update_org delete_org list_registry_creds : Target
  add_registry_cred delete_registry_cred github_status github_connect github_repos : Target
  github_disconnect list_members add_member set_member_role remove_member list_projects : Target
  create_project get_project update_project delete_project list_services create_service : Target
  project_status get_service list_deploys create_deploy image_deploy runtime_logs metrics : Target
  service_usage get_deploy deploy_logs rollback list_env set_env delete_env list_domains : Target
  add_domain delete_domain scale set_health attach_disk detach_disk suspend resume : Target
  list_databases create_database get_database database_connection scale_database : Target
  list_backups trigger_backup delete_database : Target

pub record Route : Type 0 where
  pub method : String
  pub pattern : String
  pub target : Target

abbrev route : String → String → Target → Route
route method pattern target = record { method = method; pattern = pattern; target = target }

-- What no session is asked for.
abbrev pub public_routes : List Route
public_routes =
    route "GET" "/healthz" health
    ∷ route "POST" "/v1/auth/register" register
    ∷ route "POST" "/v1/auth/login" login
    ∷ route "POST" "/v1/webhooks/github" github_webhook
    ∷ []

abbrev pub authenticated_routes : List Route
authenticated_routes =
    route "POST" "/v1/auth/logout" logout
    ∷ route "GET" "/v1/me" me
    ∷ route "GET" "/v1/audit" list_audit
    ∷ route "GET" "/v1/tokens" list_tokens
    ∷ route "POST" "/v1/tokens" create_token
    ∷ route "DELETE" "/v1/tokens/{tokenID}" delete_token
    ∷ route "GET" "/v1/orgs" list_orgs
    ∷ route "POST" "/v1/orgs" create_org
    ∷ route "PATCH" "/v1/orgs/{orgID}" update_org
    ∷ route "DELETE" "/v1/orgs/{orgID}" delete_org
    ∷ route "GET" "/v1/orgs/{orgID}/registry-credentials" list_registry_creds
    ∷ route "POST" "/v1/orgs/{orgID}/registry-credentials" add_registry_cred
    ∷ route "DELETE" "/v1/orgs/{orgID}/registry-credentials/{credID}" delete_registry_cred
    ∷ route "GET" "/v1/orgs/{orgID}/github" github_status
    ∷ route "POST" "/v1/orgs/{orgID}/github/connect" github_connect
    ∷ route "GET" "/v1/orgs/{orgID}/github/repos" github_repos
    ∷ route "DELETE" "/v1/orgs/{orgID}/github" github_disconnect
    ∷ route "GET" "/v1/orgs/{orgID}/members" list_members
    ∷ route "POST" "/v1/orgs/{orgID}/members" add_member
    ∷ route "PATCH" "/v1/orgs/{orgID}/members/{userID}" set_member_role
    ∷ route "DELETE" "/v1/orgs/{orgID}/members/{userID}" remove_member
    ∷ route "GET" "/v1/orgs/{orgID}/projects" list_projects
    ∷ route "POST" "/v1/orgs/{orgID}/projects" create_project
    ∷ route "GET" "/v1/projects/{projectID}" get_project
    ∷ route "PATCH" "/v1/projects/{projectID}" update_project
    ∷ route "DELETE" "/v1/projects/{projectID}" delete_project
    ∷ route "GET" "/v1/projects/{projectID}/services" list_services
    ∷ route "POST" "/v1/projects/{projectID}/services" create_service
    ∷ route "GET" "/v1/projects/{projectID}/status" project_status
    ∷ route "GET" "/v1/services/{serviceID}" get_service
    ∷ route "GET" "/v1/services/{serviceID}/deploys" list_deploys
    ∷ route "POST" "/v1/services/{serviceID}/deploys" create_deploy
    ∷ route "POST" "/v1/services/{serviceID}/image-deploys" image_deploy
    ∷ route "GET" "/v1/services/{serviceID}/runtime-logs" runtime_logs
    ∷ route "GET" "/v1/services/{serviceID}/metrics" metrics
    ∷ route "GET" "/v1/services/{serviceID}/usage" service_usage
    ∷ route "GET" "/v1/deploys/{deployID}" get_deploy
    ∷ route "GET" "/v1/deploys/{deployID}/logs" deploy_logs
    ∷ route "POST" "/v1/deploys/{deployID}/rollback" rollback
    ∷ route "GET" "/v1/services/{serviceID}/env" list_env
    ∷ route "POST" "/v1/services/{serviceID}/env" set_env
    ∷ route "DELETE" "/v1/services/{serviceID}/env/{key}" delete_env
    ∷ route "GET" "/v1/services/{serviceID}/domains" list_domains
    ∷ route "POST" "/v1/services/{serviceID}/domains" add_domain
    ∷ route "DELETE" "/v1/services/{serviceID}/domains/{domain}" delete_domain
    ∷ route "POST" "/v1/services/{serviceID}/scale" scale
    ∷ route "POST" "/v1/services/{serviceID}/health" set_health
    ∷ route "POST" "/v1/services/{serviceID}/disk" attach_disk
    ∷ route "DELETE" "/v1/services/{serviceID}/disk" detach_disk
    ∷ route "POST" "/v1/services/{serviceID}/suspend" suspend
    ∷ route "POST" "/v1/services/{serviceID}/resume" resume
    ∷ route "GET" "/v1/projects/{projectID}/databases" list_databases
    ∷ route "POST" "/v1/projects/{projectID}/databases" create_database
    ∷ route "GET" "/v1/databases/{databaseID}" get_database
    ∷ route "GET" "/v1/databases/{databaseID}/connection" database_connection
    ∷ route "POST" "/v1/databases/{databaseID}/scale" scale_database
    ∷ route "GET" "/v1/databases/{databaseID}/backups" list_backups
    ∷ route "POST" "/v1/databases/{databaseID}/backups" trigger_backup
    ∷ route "DELETE" "/v1/databases/{databaseID}" delete_database
    ∷ []

abbrev pub routes : List Route
routes = public_routes ++ authenticated_routes

-- `{…}` in a pattern stands for a segment that is not empty.
abbrev is_hole : Text → Bool
is_hole [] = false
is_hole (c ∷ s) = c == b'{'

abbrev cons_param : Text → Option (List Text) → Option (List Text)
cons_param s none = none
cons_param s (some ps) = some (s ∷ ps)

-- The parameters of a path in a pattern, by their segments.
unfoldable pub matched : List Text → List Text → Option (List Text)
matched [] [] = some []
matched [] (s ∷ path) = none
matched (p ∷ pattern) [] = none
matched (p ∷ pattern) (s ∷ path) =
    let rest = matched pattern path in
    if is_hole p
    then (if s == [] then none else cons_param s rest)
    else if p == s
    then rest
    else none

abbrev add_match :
    Target → Option (List Text) → List (Target × List Text) → List (Target × List Text)
add_match target none found = found
add_match target (some params) found = (target, params) ∷ found

-- All routes of a method that a path, in its segments, fits.
unfoldable pub fitting : List Route → String → List Text → List (Target × List Text)
unfolding matched split
fitting [] method path = []
fitting (r ∷ rs) method path =
    let more = fitting rs method path in
    if r.method == method
    then add_match r.target (matched (split b'/' (codes r.pattern)) path) more
    else more

abbrev pub Mux : Type 0
Mux = List Route → String → Text → Option (Target × List Text)

-- Where just one route fits, chi finds it.
abbrev pub Finds : Mux → Type 0
Finds mux =
    (rs : List Route) (method : String) (path : Text) (target : Target) (params : List Text)
    → fitting rs method (split b'/' path) ≡ (target, params) ∷ []
    → mux rs method path ≡ some (target, params)
