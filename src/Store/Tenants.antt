-- ===== src/Store/Tenants.antt =====
-- internal/store/resources.go: orgs and projects. Deleting one removes what refers to it, as the
-- schema's ON DELETE CASCADE says.
use uran_api.Prelude.{
  ℕ, suc, Text, Bool, not, ◌&&◌, none, some, List, ◌∷◌, reverse, ◌==◌, nat_eq, string_eq, text_eq,
  if◌then◌else◌, find, select, update, discard, any,
}
use uran_api.Exec.{ok, err}
use uran_api.Rbac.{owner}
use uran_api.Store.{not_found, violation, Db, Query, statement, query}
use uran_api.Store.Models.{
  GithubConnection, UsageRow, User, Org, Membership, Project, Service, Deploy, Build, Database,
  EnvVar, CustomDomain, RegistryCredential,
}
use uran_api.Store.Deploys.{one_row}

-- One transaction: the org and its first owner.
unfoldable pub create_org : ℕ → Text → Text → Query Org
create_org user_id name slug = statement λ db.
    let o : Org = record { id = db.next_org; name = name; slug = slug } in
    if any (λ (u : User). u.id == user_id) db.users
      && not (any (λ (x : Org). x.slug == slug) db.orgs)
    then ok (
      o,
      record db {
        orgs = o ∷ db.orgs;
        members = record { org_id = db.next_org; user_id = user_id; role = owner } ∷ db.members;
        next_org = suc db.next_org;
      },
    )
    else err violation

unfoldable pub list_orgs : ℕ → Query (List Org)
list_orgs user_id = query λ db. ok (
    reverse (
      select
        (λ (o : Org). any (λ (m : Membership). m.org_id == o.id && m.user_id == user_id) db.members)
        db.orgs))

unfoldable pub update_org : ℕ → Text → Text → Query Org
update_org id name slug = statement λ db. elim (find (λ (o : Org). o.id == id) db.orgs) [
  | none ↦ err not_found
  | some o ↦
      let o' : Org = record o { name = name; slug = slug } in
      if any (λ (x : Org). x.slug == slug && not (x.id == id)) db.orgs
      then err violation
      else ok (o', record db { orgs = update (λ (x : Org). x.id == id) (λ _. o') db.orgs })
]

abbrev service_goes : (ℕ → Bool) → Db → ℕ → Bool
service_goes gone db id = any (λ (s : Service). s.id == id && gone s.project_id) db.services

abbrev deploy_goes : (ℕ → Bool) → Db → ℕ → Bool
deploy_goes gone db id =
    any (λ (d : Deploy). d.id == id && service_goes gone db d.service_id) db.deploys

-- What goes with the projects whose ids pass the test.
unfoldable pub drop_projects : (ℕ → Bool) → Db → Db
drop_projects gone db = record db {
  projects = discard (λ (p : Project). gone p.id) db.projects;
  services = discard (λ (s : Service). gone s.project_id) db.services;
  deploys = discard (λ (d : Deploy). service_goes gone db d.service_id) db.deploys;
  builds = discard (λ (b : Build). deploy_goes gone db b.deploy_id) db.builds;
  databases = discard (λ (d : Database). gone d.project_id) db.databases;
  env_vars = discard (λ (v : EnvVar). service_goes gone db v.service_id) db.env_vars;
  domains = discard (λ (c : CustomDomain). service_goes gone db c.service_id) db.domains;
  usage_samples = discard (λ (s : UsageRow). service_goes gone db s.service_id) db.usage_samples;
}

unfoldable pub delete_org : ℕ → Query Unit
unfolding drop_projects
delete_org id = statement λ db.
    let gone = λ (pid : ℕ). any (λ (p : Project). p.id == pid && p.org_id == id) db.projects in
    let db' = drop_projects gone db in
    ok (
      tt,
      record db' {
        orgs = discard (λ (o : Org). o.id == id) db.orgs;
        members = discard (λ (m : Membership). m.org_id == id) db.members;
        registry_credentials =
            discard (λ (c : RegistryCredential). c.org_id == id) db.registry_credentials;
        github_connections =
            discard (λ (c : GithubConnection). c.org_id == id) db.github_connections;
      },
    )

abbrev project_slug_taken : ℕ → Text → ℕ → Db → Bool
project_slug_taken org_id slug but db =
    any (λ (p : Project). p.org_id == org_id && (p.slug == slug && not (p.id == but))) db.projects

unfoldable pub create_project : ℕ → Text → Text → Query Project
create_project org_id name slug = statement λ db.
    let p : Project = record { id = db.next_project; org_id = org_id; name = name; slug = slug } in
    if any (λ (o : Org). o.id == org_id) db.orgs
      && not (project_slug_taken org_id slug db.next_project db)
    then ok (p, record db { projects = p ∷ db.projects; next_project = suc db.next_project })
    else err violation

unfoldable pub update_project : ℕ → Text → Text → Query Project
update_project id name slug = statement λ db.
    elim (find (λ (p : Project). p.id == id) db.projects) [
      | none ↦ err not_found
      | some p ↦
          let p' : Project = record p { name = name; slug = slug } in
          if project_slug_taken p.org_id slug id db
          then err violation
          else ok (
            p',
            record db { projects = update (λ (x : Project). x.id == id) (λ _. p') db.projects },
          )
    ]

unfoldable pub delete_project : ℕ → Query Unit
unfolding drop_projects
delete_project id = statement λ db. ok (tt, drop_projects (λ pid. pid == id) db)

unfoldable pub project_by_id : ℕ → Query Project
project_by_id id = query λ db. one_row (find (λ (p : Project). p.id == id) db.projects)

unfoldable pub list_projects : ℕ → Query (List Project)
list_projects org_id =
    query λ db. ok (reverse (select (λ (p : Project). p.org_id == org_id) db.projects))
