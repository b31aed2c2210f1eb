-- ===== src/Controller/Lifecycle.antt =====
-- The controller moves deploys only along the state machine.
use uran_api.Prelude.{List, ℕ, All, string_eq, text_eq}
use uran_api.Exec.Respects.{Respects}
use uran_api.Store.{Query, World}
use uran_api.Store.Models.{Deploy, Service, EnvVar}
use uran_api.Store.Deploys.{deploy_by_id, service_by_id}
use uran_api.Store.Services.{list_env_vars, list_custom_domains, list_registry_credentials}
use uran_api.Store.Through.{Through, through_rules, Respects-call}
use uran_api.Store.Lineage.{Lineage, Lineage-IsPreorder, Falling, Origin}
use uran_api.Store.Lineage.Operations.{update_deploy_status-Lineage}
use uran_api.K8s.{ServiceSpec}
use uran_api.Controller.{
  release, release, fail, or_fail, pull_creds, domain_names, domains_of, require_image,
  apply_and_go_live, reconcile,
}

deploy_by_id-Lineage : (id : ℕ) → Respects (Through Lineage) (deploy_by_id id)
unfolding deploy_by_id
deploy_by_id-Lineage id = search (through_rules, Lineage-IsPreorder)

service_by_id-Lineage : (id : ℕ) → Respects (Through Lineage) (service_by_id id)
unfolding service_by_id
service_by_id-Lineage id = search (through_rules, Lineage-IsPreorder)

list_env_vars-Lineage : (id : ℕ) → Respects (Through Lineage) (list_env_vars id)
unfolding list_env_vars
list_env_vars-Lineage id = search (through_rules, Lineage-IsPreorder)

domain_names-Lineage : (id : ℕ) → Respects (Through Lineage) (domain_names id)
unfolding domain_names list_custom_domains
domain_names-Lineage id = search (through_rules, Lineage-IsPreorder)

pull_creds-Lineage : (id : ℕ) → Respects (Through Lineage) (pull_creds id)
unfolding pull_creds list_registry_credentials
pull_creds-Lineage id = search (through_rules, Lineage-IsPreorder)

ruleset lineage_rules = (
  through_rules, Lineage-IsPreorder, Respects-call, deploy_by_id-Lineage, service_by_id-Lineage,
  list_env_vars-Lineage, domain_names-Lineage, pull_creds-Lineage, update_deploy_status-Lineage,
)

fail-Lineage : (id : ℕ) → Respects (Through Lineage) (fail id)
unfolding fail
fail-Lineage id = search lineage_rules

or_fail-Lineage :
    {A : Type 0} (id : ℕ) (m : Query A)
    → Respects (Through Lineage) m
    → Respects (Through Lineage) (or_fail id m)
unfolding or_fail
or_fail-Lineage id m r = search (lineage_rules, fail-Lineage) depth 8

require_image-Lineage : (id : ℕ) (d : Deploy) → Respects (Through Lineage) (require_image id d)
unfolding require_image
require_image-Lineage id d = search (lineage_rules, fail-Lineage) depth 8

domains_of-Lineage : (id : ℕ) (d : Deploy) → Respects (Through Lineage) (domains_of id d)
unfolding domains_of
domains_of-Lineage id d = search (lineage_rules, or_fail-Lineage) depth 8

apply_and_go_live-Lineage :
    (id : ℕ) (spec : ServiceSpec) → Respects (Through Lineage) (apply_and_go_live id spec)
unfolding apply_and_go_live
apply_and_go_live-Lineage id spec = search (lineage_rules, or_fail-Lineage) depth 8

release-Lineage :
    (id : ℕ) (d : Deploy) (s : Service) (org_id : ℕ) (vars : List EnvVar)
    → Respects (Through Lineage) (release id d s org_id vars)
unfolding release
release-Lineage id d s org_id vars =
    search (lineage_rules, domains_of-Lineage, apply_and_go_live-Lineage) depth 8

reconcile-Lineage : (id : ℕ) → Respects (Through Lineage) (reconcile id)
unfolding reconcile
reconcile-Lineage id =
    search
      (
        lineage_rules, or_fail-Lineage, require_image-Lineage, domains_of-Lineage,
        apply_and_go_live-Lineage,
      )
      depth 8

-- Whichever requests fail: while ids fall along the table, they do so after a reconciliation, and
-- every deploy then has come, by moves of the state machine, from the row of its id or from the
-- status of a new deploy, with its service and kind unchanged.
pub reconcile-Origin :
    (id : ℕ) (w : World)
    → Falling w.next_deploy w.deploys
    → let w' = (reconcile id w).1 in
      Falling w'.next_deploy w'.deploys × All (Origin w.db) w'.deploys
reconcile-Origin id w f = let l = ((reconcile-Lineage id).at w).at in (l.keyed f, l.traced f)
