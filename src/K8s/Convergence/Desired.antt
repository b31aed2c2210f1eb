-- ===== src/K8s/Convergence/Desired.antt =====
-- internal/k8s/reconcile.go: the objects that a spec asks for, and those that it asks to be without.
use uran_api.Prelude.{
  ◌≡◌, Text, none, some, List, [], ◌∷◌, ◌++◌, All, if◌then◌else◌, ◌==◌, string_eq,
}
use uran_api.Svctype
use uran_api.K8s.{ServiceSpec, RegistryCred, has_disk, autoscaled}
use uran_api.K8s.Objects.{
  Key, Object, key, object, env_secret_name, tls_secret_name, http_route_name, pvc_name,
  pull_secret_name, string_data, docker_config, deployment, cron_job, volume_claim, autoscaler,
  service, certificate, ingress_route,
}
use uran_api.K8s.Wire.{Wire, Request}
use uran_api.K8s.Workload.{
  auths, cron_container, deployment_of, hpa_cpu_target, hosts, https_route, http_route,
}
use uran_api.K8s.Ledger.{standing}
use uran_api.K8s.Convergence.{Settled}

abbrev pub pull_secret : Text → List RegistryCred → List Object
pull_secret ns [] = []
pull_secret ns (c ∷ cs) =
    object "Secret" ns pull_secret_name (docker_config (auths [] (c ∷ cs))) ∷ []

abbrev pub no_pull_secret : Text → List RegistryCred → List Key
no_pull_secret ns [] = key "Secret" ns pull_secret_name ∷ []
no_pull_secret ns (c ∷ cs) = []

abbrev pub claim : ServiceSpec → Object
claim s = object "PersistentVolumeClaim" s.namespace (pvc_name s.name) (volume_claim s.disk_size)

abbrev pub scaler : ServiceSpec → Object
scaler s =
    object "HorizontalPodAutoscaler" s.namespace s.name
      (autoscaler s.name s.min_replicas s.max_replicas hpa_cpu_target)

module _ (base_domain cert_issuer : Text) where
  abbrev pub routing : ServiceSpec → List Object
  routing s =
      object "Service" s.namespace s.name (service 80 s.port)
      ∷ object "Certificate" s.namespace s.name
          (certificate (tls_secret_name s.name) (hosts base_domain cert_issuer s) cert_issuer)
      ∷ object "IngressRoute" s.namespace s.name
          (ingress_route (https_route base_domain cert_issuer s))
      ∷ object "IngressRoute" s.namespace (http_route_name s.name)
          (ingress_route (http_route base_domain cert_issuer s))
      ∷ []

  abbrev pub running : ServiceSpec → List Object
  running s =
      object "Deployment" s.namespace s.name (deployment (deployment_of s))
      ∷ ((if has_disk s then claim s ∷ [] else [])
          ++ ((if autoscaled s then scaler s ∷ [] else [])
              ++ (if Svctype.is_routable s.type then routing s else [])))

  abbrev pub desired : ServiceSpec → List Object
  desired s =
      object "Secret" s.namespace (env_secret_name s.name) (string_data s.env)
      ∷ (pull_secret s.namespace s.pull_creds
          ++ (if s.type == Svctype.cron
              then object "CronJob" s.namespace s.name (cron_job s.schedule (cron_container s)) ∷ []
              else running s))

abbrev pub absent : ServiceSpec → List Key
absent s =
    (if has_disk s then [] else (claim s).at ∷ [])
    ++ (if autoscaled s then [] else (scaler s).at ∷ [])

-- What a spec may ask to be without: the pull secret, and for a service that is no cron job the volume
-- claim and the autoscaler. The routes of a service that was routable before, and the Deployment or
-- the CronJob of one whose type has changed, are not among them: `Apply` does not look at them.
abbrev pub dropped : ServiceSpec → List Key
dropped s =
    no_pull_secret s.namespace s.pull_creds ++ (if s.type == Svctype.cron then [] else absent s)

abbrev pub Held : List Request → Object → Type 0
Held log o = standing log o.at ≡ some o.body

abbrev pub Gone : List Request → Key → Type 0
Gone log k = standing log k ≡ none

module _ (base_domain cert_issuer : Text) where
  -- The cluster holds what the spec asks for and nothing of what `dropped` lists for it.
  pub record Converged (s : ServiceSpec) (log : List Request) : Type 0 where
    pub held : All (Held log) (desired base_domain cert_issuer s)
    pub gone : All (Gone log) (dropped s)

  module _ (s : ServiceSpec) (log : List Request)
      (met : Settled base_domain cert_issuer s log) where
    job_object : Object
    job_object = object "CronJob" s.namespace s.name (cron_job s.schedule (cron_container s))
