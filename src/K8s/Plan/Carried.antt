-- ===== src/K8s/Plan/Carried.antt =====
-- internal/k8s/reconcile.go: `Apply` and `Delete` as the lists of requests that they make.
use uran_api.Prelude.{
  Text, Bool, true, false, not, refl, Bool-cases, inl, inr, ◌==◌, string_eq, Option, List, [], ◌∷◌,
  ◌++◌, map, if◌then◌else◌,
}
use uran_api.Svctype
use uran_api.Exec.{pure, lift, ◌>>◌}
use uran_api.K8s.{ServiceSpec, RegistryCred, has_disk, autoscaled}
use uran_api.K8s.Wire.{Request, Action, drop, request}
use uran_api.K8s.Policies.{ensure_namespace, apply_namespace_policies}
use uran_api.K8s.Workload.{
  reconcile_pull_secret, apply_env_secret, apply_cron_job, reconcile_disk, apply_deployment,
  reconcile_autoscaler, apply_routing, apply_running, apply, delete, Rollout, wait_for_rollout,
}
use uran_api.K8s.Workload as Workload
use uran_api.K8s.Ledger.Carried.{
  Does, Ends, Does-request, Does-pure, Does-step, Ends-step, Does-if, Quiet, Ends-last, Ends-Does,
  Ends-bind, Ends-if,
}
use uran_api.K8s.Plan.{
  namespace_plan, pull_request, disk_request, autoscaler_request, routing_plan, running_plan, plan,
  rollout_of, owned_keys,
}

-- What every method starts with.
pub namespace-Ends :
    (ns : Text) (n : Action Unit) (rs : List Request) (end : Action Unit)
    → Ends n rs end
    → Ends (ensure_namespace ns >> (apply_namespace_policies ns >> n)) (namespace_plan ns ++ rs) end
unfolding ensure_namespace apply_namespace_policies
namespace-Ends ns n rs end e =
    Ends-step _ _ _ _ _ (Does-request _)
      (Ends-bind _ _ _ _ _ (Does-step _ _ _ (Does-step _ _ _ (Does-request _))) e)

pull-Does :
    (ns : Text) (cs : List RegistryCred)
    → Does (reconcile_pull_secret ns cs) (pull_request ns cs ∷ [])
unfolding reconcile_pull_secret
pull-Does ns [] = Does-request _
pull-Does ns (c ∷ cs) = Does-request _

-- One of two requests, chosen by a negated test.
choice-Does :
    (b : Bool) (p q : Request)
    → Does (if not b then request q else request p) ((if b then p else q) ∷ [])
choice-Does true p q = Does-request p
choice-Does false p q = Does-request q

disk-Does : (s : ServiceSpec) → Does (reconcile_disk s) (disk_request s ∷ [])
unfolding reconcile_disk
disk-Does s = choice-Does (has_disk s) _ _

autoscaler-Does : (s : ServiceSpec) → Does (reconcile_autoscaler s) (autoscaler_request s ∷ [])
unfolding reconcile_autoscaler
autoscaler-Does s = choice-Does (autoscaled s) _ _

module _ (base_domain cert_issuer : Text) where
  routing-Does :
      (s : ServiceSpec)
      → Does (apply_routing base_domain cert_issuer s) (routing_plan base_domain cert_issuer s)
  unfolding apply_routing
  routing-Does s =
      Does-if _ _ _ _ _ (Does-step _ _ _ (Does-step _ _ _ (Does-step _ _ _ (Does-request _))))
        Does-pure

  module _ (observed : Text → Text → List (Option Rollout)) where
    running-Ends :
        (s : ServiceSpec)
        → Ends
            (apply_running base_domain cert_issuer observed s)
            (running_plan base_domain cert_issuer s)
            (wait_for_rollout observed s.namespace s.name)
    unfolding apply_running apply_deployment
    running-Ends s = Ends-step _ _ _ _ _ (disk-Does s) (
        Ends-step _ _ _ _ _ (Does-request _)
          (Ends-step _ _ _ _ _ (autoscaler-Does s) (Ends-last _ _ _ (routing-Does s))))

    pub apply-Ends :
        (s : ServiceSpec)
        → Ends
            (Workload.apply base_domain cert_issuer observed s)
            (plan base_domain cert_issuer s)
            (rollout_of observed s)
    unfolding apply apply_env_secret apply_cron_job
    apply-Ends s = namespace-Ends s.namespace _ _ _ (
        Ends-step _ _ _ _ _ (pull-Does s.namespace s.pull_creds) (
          Ends-step _ _ _ _ _ (Does-request _)
            (Ends-if _ _ _ _ _ _ _ (Ends-Does _ _ (Does-request _)) (running-Ends s))))

pub delete-Does : (ns name : Text) → Does (delete ns name) (map drop (owned_keys ns name))
unfolding delete
delete-Does ns name = Does-step _ _ _ (
    Does-step _ _ _ (
      Does-step _ _ _ (
        Does-step _ _ _ (
          Does-step _ _ _ (
            Does-step _ _ _
              (Does-step _ _ _ (Does-step _ _ _ (Does-step _ _ _ (Does-request _)))))))))

pub rollout_of-Quiet :
    (observed : Text → Text → List (Option Rollout)) (s : ServiceSpec)
    → Quiet (rollout_of observed s)
unfolding wait_for_rollout pure lift
rollout_of-Quiet observed s w = elim (Bool-cases (s.type == Svctype.cron)) [
  | inl c ↦ rw c refl
  | inr c ↦ rw c refl
]
