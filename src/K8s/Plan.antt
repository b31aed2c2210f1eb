-- ===== src/K8s/Plan.antt =====
-- internal/k8s/reconcile.go: what `Apply` and `Delete` are to do, as data. `plan` is the list of the
-- requests for a spec; `rollout_of` is the wait at the end, which a cron job does not have.
pub mod Carried
pub mod Keys
use uran_api.Prelude.{
  Text, Bool, not, Option, List, [], ◌∷◌, ◌++◌, map, if◌then◌else◌, ◌==◌, string_eq,
}
use uran_api.Exec.{pure}
use uran_api.Svctype
use uran_api.Go.Text.{codes}
use uran_api.K8s.{ServiceSpec, RegistryCred, has_disk, autoscaled}
use uran_api.K8s.Objects.{
  Key, key, object, env_secret_name, tls_secret_name, http_route_name, pvc_name, pull_secret_name,
  managed_namespace, resource_quota, limit_range, network_policy, docker_config, string_data,
  deployment, cron_job, volume_claim, autoscaler, service, certificate, ingress_route,
}
use uran_api.K8s.Wire.{Request, Action, put, drop}
use uran_api.K8s.Policies.{quota, container_defaults, peers}
use uran_api.K8s.Workload.{
  auths, cron_container, deployment_of, hpa_cpu_target, hosts, https_route, http_route, Rollout,
  wait_for_rollout,
}

-- What an organization's services share.
abbrev pub namespace_plan : Text → List Request
namespace_plan ns =
    put (object "Namespace" [] ns managed_namespace)
    ∷ put (object "ResourceQuota" ns (codes "uran-quota") (resource_quota quota))
    ∷ put (object "LimitRange" ns (codes "uran-limits") (limit_range container_defaults))
    ∷ put (object "NetworkPolicy" ns (codes "uran-isolation") (network_policy peers))
    ∷ []

abbrev pub pull_request : Text → List RegistryCred → Request
pull_request ns [] = drop (key "Secret" ns pull_secret_name)
pull_request ns (c ∷ cs) =
    put (object "Secret" ns pull_secret_name (docker_config (auths [] (c ∷ cs))))

abbrev pub env_request : ServiceSpec → Request
env_request s = put (object "Secret" s.namespace (env_secret_name s.name) (string_data s.env))

abbrev pub cron_request : ServiceSpec → Request
cron_request s = put (object "CronJob" s.namespace s.name (cron_job s.schedule (cron_container s)))

abbrev pub disk_request : ServiceSpec → Request
disk_request s =
    if has_disk s
    then put
        (object "PersistentVolumeClaim" s.namespace (pvc_name s.name) (volume_claim s.disk_size))
    else drop (key "PersistentVolumeClaim" s.namespace (pvc_name s.name))

abbrev pub deployment_request : ServiceSpec → Request
deployment_request s = put (object "Deployment" s.namespace s.name (deployment (deployment_of s)))

abbrev pub autoscaler_request : ServiceSpec → Request
autoscaler_request s =
    if autoscaled s
    then put (
        object "HorizontalPodAutoscaler" s.namespace s.name
          (autoscaler s.name s.min_replicas s.max_replicas hpa_cpu_target))
    else drop (key "HorizontalPodAutoscaler" s.namespace s.name)

module _ (base_domain cert_issuer : Text) where
  abbrev pub routes_plan : ServiceSpec → List Request
  routes_plan s =
      put (
        object "Certificate" s.namespace s.name
          (certificate (tls_secret_name s.name) (hosts base_domain cert_issuer s) cert_issuer))
      ∷ put (object "Service" s.namespace s.name (service 80 s.port))
      ∷ put (
          object "IngressRoute" s.namespace s.name
            (ingress_route (https_route base_domain cert_issuer s)))
      ∷ put (
          object "IngressRoute" s.namespace (http_route_name s.name)
            (ingress_route (http_route base_domain cert_issuer s)))
      ∷ []

  abbrev pub routing_plan : ServiceSpec → List Request
  routing_plan s = if Svctype.is_routable s.type then routes_plan s else []

  abbrev pub running_plan : ServiceSpec → List Request
  running_plan s = disk_request s ∷ deployment_request s ∷ autoscaler_request s ∷ routing_plan s

  abbrev pub workload_plan : ServiceSpec → List Request
  workload_plan s = if s.type == Svctype.cron then cron_request s ∷ [] else running_plan s

  abbrev pub service_plan : ServiceSpec → List Request
  service_plan s = pull_request s.namespace s.pull_creds ∷ env_request s ∷ workload_plan s

  abbrev pub plan : ServiceSpec → List Request
  plan s = namespace_plan s.namespace ++ service_plan s

abbrev pub rollout_of : (Text → Text → List (Option Rollout)) → ServiceSpec → Action Unit
rollout_of observed s =
    if s.type == Svctype.cron then pure tt else wait_for_rollout observed s.namespace s.name

-- The objects that are one workload's alone.
abbrev pub owned_keys : Text → Text → List Key
owned_keys ns name =
    key "Deployment" ns name
    ∷ key "CronJob" ns name
    ∷ key "HorizontalPodAutoscaler" ns name
    ∷ key "PersistentVolumeClaim" ns (pvc_name name)
    ∷ key "Service" ns name
    ∷ key "Secret" ns (env_secret_name name)
    ∷ key "IngressRoute" ns name
    ∷ key "IngressRoute" ns (http_route_name name)
    ∷ key "Certificate" ns name
    ∷ key "Secret" ns (tls_secret_name name)
    ∷ []

-- The objects that the services of a namespace share.
abbrev pub shared_keys : Text → List Key
shared_keys ns =
    key "Namespace" [] ns
    ∷ key "ResourceQuota" ns (codes "uran-quota")
    ∷ key "LimitRange" ns (codes "uran-limits")
    ∷ key "NetworkPolicy" ns (codes "uran-isolation")
    ∷ key "Secret" ns pull_secret_name
    ∷ []
