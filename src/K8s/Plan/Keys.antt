-- ===== src/K8s/Plan/Keys.antt =====
-- internal/k8s/reconcile.go: the objects that `Apply` and `Delete` concern.
use uran_api.Prelude.{◌≡◌, Text, false, Bool-cases, List, [], ◌∷◌, ◌++◌, All, string_eq, arith}
use uran_api.K8s.{ServiceSpec, RegistryCred, has_disk, autoscaled}
use uran_api.K8s.Objects.{Key, key, same_key, pvc_name}
use uran_api.K8s.Wire.{Request}
use uran_api.K8s.Ledger.{key_of, has, concerns}
use uran_api.K8s.Ledger.Verdicts.{Elsewhere, All-if, All-concerns, has-All}
use uran_api.K8s.Plan.{
  namespace_plan, pull_request, disk_request, autoscaler_request, cron_request, routes_plan,
  running_plan, routing_plan, workload_plan, service_plan, plan, owned_keys, shared_keys,
}

-- What every method starts with concerns the shared objects.
pub namespace-Elsewhere :
    (k : Key) (ns : Text) (rs : List Request)
    → has (shared_keys ns) k ≡ false
    → All (Elsewhere k) rs
    → All (Elsewhere k) (namespace_plan ns ++ rs)
unfolding key_of
namespace-Elsewhere k ns rs h a =
    let (space, (quota_, (limits, (policy, _)))) = has-All (shared_keys ns) k h in
    (space, (quota_, (limits, (policy, a))))

module _ (k : Key) where
  pull_request-Elsewhere :
      (ns : Text) (cs : List RegistryCred)
      → All (λ j. same_key j k ≡ false) (shared_keys ns)
      → Elsewhere k (pull_request ns cs)
  unfolding key_of
  pull_request-Elsewhere ns [] h = h.1.1.1.1.0
  pull_request-Elsewhere ns (c ∷ cs) h = h.1.1.1.1.0

  module _ (base_domain cert_issuer : Text) (s : ServiceSpec) where
    All-routing :
        All (λ j. same_key j k ≡ false) (owned_keys s.namespace s.name)
        → All (Elsewhere k) (routing_plan base_domain cert_issuer s)
    unfolding key_of
    All-routing (_, (_, (_, (_, (service_, (_, (route, (http, (certificate_, (_, _)))))))))) =
        All-if k _ (routes_plan base_domain cert_issuer s) []
          (certificate_, (service_, (route, (http, tt)))) tt

    pub disk_request-Elsewhere :
        same_key (key "PersistentVolumeClaim" s.namespace (pvc_name s.name)) k ≡ false
        → Elsewhere k (disk_request s)
    unfolding key_of
    disk_request-Elsewhere h = ground (arith, h, Bool-cases (has_disk s))

    pub autoscaler_request-Elsewhere :
        same_key (key "HorizontalPodAutoscaler" s.namespace s.name) k ≡ false
        → Elsewhere k (autoscaler_request s)
    unfolding key_of
    autoscaler_request-Elsewhere h = ground (arith, h, Bool-cases (autoscaled s))

    All-workload :
        All (λ j. same_key j k ≡ false) (owned_keys s.namespace s.name)
        → All (Elsewhere k) (workload_plan base_domain cert_issuer s)
    unfolding key_of
    All-workload h =
        let (deployment_, (cron_job_, (autoscaler_, (claim, _)))) = h in
        All-if k _ (cron_request s ∷ []) (running_plan base_domain cert_issuer s) (cron_job_, tt)
          (
            disk_request-Elsewhere claim,
            (deployment_, (autoscaler_request-Elsewhere autoscaler_, All-routing h)),
          )

    -- Apply concerns the workload's objects and the shared ones of its namespace.
    pub plan-concerns :
        has (owned_keys s.namespace s.name) k ≡ false
        → has (shared_keys s.namespace) k ≡ false
        → concerns (plan base_domain cert_issuer s) k ≡ false
    unfolding key_of
    plan-concerns own common =
        let h = has-All _ k own in
        let (_, (_, (_, (_, (_, (env, _)))))) = h in
        All-concerns _ k (
          namespace-Elsewhere k s.namespace (service_plan base_domain cert_issuer s) common (
            pull_request-Elsewhere s.namespace s.pull_creds (has-All _ k common),
            (env, All-workload h),
          ))
