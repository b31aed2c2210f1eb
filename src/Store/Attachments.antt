-- ===== src/Store/Attachments.antt =====
-- internal/store/domains.go, registry.go and github_oauth.go: what is added to and removed from a service or an org.
use uran_api.Prelude.{
  ℕ, suc, Text, Bool, not, ◌&&◌, Option, none, some, ◌∷◌, ◌==◌, nat_eq, text_eq, if◌then◌else◌,
  find, select, update, discard, any, length, ltb,
}
use uran_api.Exec.{Result, ok, err}
use uran_api.Store.{Db, Error, duplicate, violation, Query, query, statement}
use uran_api.Store.Models.{Org, Service, CustomDomain, RegistryCredential, GithubConnection}

abbrev pub is_domain : Text → CustomDomain → Bool
is_domain domain c = c.domain == domain

abbrev pub new_domain : ℕ → Text → Db → CustomDomain
new_domain service_id domain db = record {
  id = db.next_domain;
  service_id = service_id;
  domain = domain;
}

-- The domain is unique among all services.
unfoldable pub add_custom_domain : ℕ → Text → Query CustomDomain
add_custom_domain service_id domain = statement λ db.
    if any (is_domain domain) db.domains
    then err duplicate
    else if not (any (λ (s : Service). s.id == service_id) db.services)
    then err violation
    else ok (
      new_domain service_id domain db,
      record db {
        domains = new_domain service_id domain db ∷ db.domains;
        next_domain = suc db.next_domain;
      },
    )

abbrev pub is_domain_of : ℕ → Text → CustomDomain → Bool
is_domain_of service_id domain c = c.service_id == service_id && c.domain == domain

-- Whether a row was deleted.
unfoldable pub delete_custom_domain : ℕ → Text → Query Bool
delete_custom_domain service_id domain = statement λ db. ok (
  ltb 0 (length (select (is_domain_of service_id domain) db.domains)),
  record db { domains = discard (is_domain_of service_id domain) db.domains },
)

abbrev pub is_registry_of : ℕ → Text → RegistryCredential → Bool
is_registry_of org_id registry c = c.org_id == org_id && c.registry == registry

abbrev pub with_login : Text → Text → RegistryCredential → RegistryCredential
with_login username password c = record c { username = username; password = password }

-- `INSERT … ON CONFLICT (org_id, registry) DO UPDATE … RETURNING`.
unfoldable pub upsert_credential :
    ℕ → Text → Text → Text → Option RegistryCredential → Db → Result Error (RegistryCredential × Db)
upsert_credential org_id registry username password (some c) db = ok (
  with_login username password c,
  record db {
    registry_credentials =
        update (is_registry_of org_id registry) (with_login username password)
          db.registry_credentials;
  },
)
upsert_credential org_id registry username password none db =
    let c : RegistryCredential = record {
      id = db.next_registry_credential;
      org_id = org_id;
      registry = registry;
      username = username;
      password = password;
    } in
    ok (
      c,
      record db {
        registry_credentials = c ∷ db.registry_credentials;
        next_registry_credential = suc db.next_registry_credential;
      },
    )

unfoldable pub add_registry_credential : ℕ → Text → Text → Text → Query RegistryCredential
unfolding upsert_credential
add_registry_credential org_id registry username password = statement λ db.
    if any (λ (o : Org). o.id == org_id) db.orgs
    then upsert_credential org_id registry username password
        (find (is_registry_of org_id registry) db.registry_credentials) db
    else err violation

abbrev pub is_credential_of : ℕ → ℕ → RegistryCredential → Bool
is_credential_of org_id id c = c.id == id && c.org_id == org_id

unfoldable pub delete_registry_credential : ℕ → ℕ → Query Bool
delete_registry_credential org_id id = statement λ db. ok (
  ltb 0 (length (select (is_credential_of org_id id) db.registry_credentials)),
  record db { registry_credentials = discard (is_credential_of org_id id) db.registry_credentials },
)

abbrev pub is_connection_of : ℕ → GithubConnection → Bool
is_connection_of org_id c = c.org_id == org_id

abbrev pub with_account : Text → Text → GithubConnection → GithubConnection
with_account token account c = record c { access_token = token; account_login = account }

-- `INSERT … ON CONFLICT (org_id) DO UPDATE`.
unfoldable pub set_github_connection : ℕ → Text → Text → Query Unit
set_github_connection org_id token account = statement λ db.
    if not (any (λ (o : Org). o.id == org_id) db.orgs)
    then err violation
    else ok (
      tt,
      record db {
        github_connections =
            if any (is_connection_of org_id) db.github_connections
            then update (is_connection_of org_id) (with_account token account) db.github_connections
            else record { org_id = org_id; access_token = token; account_login = account }
              ∷ db.github_connections;
      },
    )

unfoldable pub github_connection : ℕ → Query (Option GithubConnection)
github_connection org_id = query λ db. ok (find (is_connection_of org_id) db.github_connections)

unfoldable pub delete_github_connection : ℕ → Query Unit
delete_github_connection org_id = statement λ db.
    ok (
      tt,
      record db { github_connections = discard (is_connection_of org_id) db.github_connections },
    )
