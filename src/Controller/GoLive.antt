-- ===== src/Controller/GoLive.antt =====
-- How a deploy goes live.
use uran_api.Prelude.{
  ℕ, suc, Text, ◌≡◌, refl, inl, inr, false, some, List, [], ◌∷◌, arith, ◌==◌, nat_eq, string_eq,
  text_eq, find, select, reverse, Bool-cases, map,
}
use uran_api.Exec.{ok, ◌>>=◌, try, catch, or_raise, pure, raise, guard}
use uran_api.Deploy.{status_deploying, status_live, kind_production, can_transition}
use uran_api.K8s.{ServiceSpec, RegistryCred, apply}
use uran_api.Naming.{namespace_for_org, workload_name}
use uran_api.Store.{World, Healthy, query, statement, call}
use uran_api.Store.Models.{Deploy, Service, Project, EnvVar, CustomDomain, RegistryCredential}
use uran_api.Store.Deploys.{
  has_id, with_status, deploy_by_id, service_by_id, update_deploy_status, set_status,
}
use uran_api.Store.Services.{list_env_vars, list_custom_domains, list_registry_credentials}
use uran_api.Store.Rows.{update_deploy_status-row}
use uran_api.Controller.{
  or_fail, pull_creds, creds_of, domain_names, domains_of, require_image, spec_of,
  apply_and_go_live, release, reconcile,
}

-- The spec that the cluster is asked to apply is of this deploy.
pub record Describes (spec : ServiceSpec) (d : Deploy) (s : Service) (org_id : ℕ) : Type 0 where
  pub namespace : spec.namespace ≡ namespace_for_org org_id
  pub name : spec.name ≡ workload_name s.slug d.kind d.pr_number
  pub type : spec.type ≡ s.type
  pub image : spec.image ≡ d.image
  pub replicas : spec.replicas ≡ s.replicas
  pub suspended : spec.suspended ≡ s.suspended
  pub disk_size : spec.disk_size ≡ s.disk_size
  pub disk_path : spec.disk_path ≡ s.disk_path

call-Healthy :
    (spec : ServiceSpec) (w : World)
    → Healthy w
    → ((call (apply spec) w).0 ≡ ok tt)
      × ((call (apply spec) w).1.db ≡ w.db)
      × ((call (apply spec) w).1.calls ≡ apply spec ∷ w.calls)
      × ((call (apply spec) w).1.down ≡ w.down)
unfolding call
call-Healthy spec w h = ground (arith, h w.sent)

update-calls : (id : ℕ) (w : World) → (update_deploy_status id status_live w).1.calls ≡ w.calls
unfolding update_deploy_status deploy_by_id set_status statement query ◌>>=◌ guard pure raise
update-calls id w = ground arith

apply_and_go_live-row :
    (id : ℕ) (spec : ServiceSpec) (w : World) (d : Deploy)
    → Healthy w
    → find (has_id id) w.deploys ≡ some d
    → d.status ≡ status_deploying
    → ((apply_and_go_live id spec w).1.calls ≡ apply spec ∷ w.calls)
      × (find (has_id id) (apply_and_go_live id spec w).1.deploys
          ≡ some (with_status status_live w.now d))
unfolding apply_and_go_live or_fail ◌>>=◌ catch or_raise pure can_transition
apply_and_go_live-row id spec w d h f s =
    let asked = call-Healthy spec w h in
    let w1 = (call (apply spec) w).1 in
    let moved =
      update_deploy_status-row id status_live w1 d (λ n. rw asked.3 (h n)) (rw asked.1 f)
        (rw s refl) in
    rw (asked.0, moved.0) (cc (update-calls id w1, asked.2), cc (moved.1, asked.1))

spec_of-Describes :
    (d : Deploy) (s : Service) (org_id : ℕ) (vars : List EnvVar) (domains : List Text)
    (creds : List RegistryCred)
    → Describes (spec_of d s org_id vars domains creds) d s org_id
unfolding spec_of
spec_of-Describes d s org_id vars domains creds = record {
  namespace = refl;
  name = refl;
  type = refl;
  image = refl;
  replicas = refl;
  suspended = refl;
  disk_size = refl;
  disk_path = refl;
}

-- What is read before the cluster is asked.
released :
    (id : ℕ) (w : World) (d : Deploy) (s : Service) (org_id : ℕ) (vars : List EnvVar)
    → Healthy w
    → (spec : ServiceSpec) × (k : ℕ) × (release id d s org_id vars w
        ≡ apply_and_go_live id spec (record w { sent = k }))
      × Describes spec d s org_id
unfolding release or_fail domains_of domain_names pull_creds list_custom_domains
    list_registry_credentials query ◌>>=◌ catch pure try
released id w d s org_id vars h = elim (Bool-cases (d.kind == kind_production)) [
  | inl prod ↦ (
    spec (
        map CustomDomain.domain
          (select (λ (c : CustomDomain). c.service_id == d.service_id) w.domains)),
    suc (suc w.sent),
    rw (prod, h w.sent, h (suc w.sent)) refl,
    spec_of-Describes d s org_id vars _ _,
  )
  | inr pre ↦ (spec [], suc w.sent, rw (pre, h w.sent) refl, spec_of-Describes d s org_id vars _ _)
]
  where
    spec : List Text → ServiceSpec
    spec domains = spec_of d s org_id vars domains (
        creds_of (
          ok (
            reverse
              (select (λ (c : RegistryCredential). c.org_id == org_id) w.registry_credentials))))

prepared :
    (id : ℕ) (w : World) (d : Deploy) (s : Service) (p : Project)
    → Healthy w
    → find (has_id id) w.deploys ≡ some d
    → (d.image == []) ≡ false
    → find (λ (x : Service). x.id == d.service_id) w.services ≡ some s
    → find (λ (x : Project). x.id == s.project_id) w.projects ≡ some p
    → reconcile id w
      ≡ release id d s p.org_id
          (select (λ (v : EnvVar). v.service_id == d.service_id) w.env_vars)
          (record w { sent = suc (suc (suc w.sent)) })
unfolding reconcile require_image or_fail deploy_by_id service_by_id list_env_vars query ◌>>=◌ catch
    or_raise pure
prepared id w d s p h f i fs fp =
    rw (h w.sent, f, i, h (suc w.sent), fs, fp, h (suc (suc w.sent))) refl

-- If no request fails, the reconciliation of a deploy that is deploying, has an image, and has its
-- service and project, asks the cluster once, to apply a spec of this deploy, and makes it live.
pub reconcile-live :
    (id : ℕ) (w : World) (d : Deploy) (s : Service) (p : Project)
    → Healthy w
    → find (has_id id) w.deploys ≡ some d
    → d.status ≡ status_deploying
    → (d.image == []) ≡ false
    → find (λ (x : Service). x.id == d.service_id) w.services ≡ some s
    → find (λ (x : Project). x.id == s.project_id) w.projects ≡ some p
    → (find (has_id id) (reconcile id w).1.deploys ≡ some (with_status status_live w.now d))
      × ((spec : ServiceSpec) × ((reconcile id w).1.calls ≡ apply spec ∷ w.calls)
          × Describes spec d s p.org_id)
reconcile-live id w d s p h f st i fs fp =
    let vars = select (λ (v : EnvVar). v.service_id == d.service_id) w.env_vars in
    let w1 : World = record w { sent = suc (suc (suc w.sent)) } in
    let first = prepared id w d s p h f i fs fp in
    let (spec, k, then_, describes) = released id w1 d s p.org_id vars h in
    let live = apply_and_go_live-row id spec (record w { sent = k }) d h f st in
    (cc (first, then_, live.1), (spec, cc (first, then_, live.0), describes))
