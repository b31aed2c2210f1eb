-- ===== src/K8s/Convergence.antt =====
-- internal/k8s/reconcile.go: what stands in the cluster after an `Apply` that returns no error.
pub mod Replicas
pub mod Completion
pub mod Desired
pub mod Suspension
use uran_api.Prelude.{
  ◌≡◌, refl, sym, ap, ◌∙◌, Text, true, false, Option, none, some, List, [], ◌∷◌, if◌then◌else◌, All,
  ◌==◌, string_eq, text_eq, arith,
}
use mathlib.Core.Path.{subst}
use mathlib.Core.Option.{get_or}
use uran_api.Exec.{ok}
use uran_api.Svctype
use uran_api.K8s.{ServiceSpec, RegistryCred, has_disk, autoscaled}
use uran_api.K8s.Objects.{
  Key, Body, key, same_key, env_secret_name, tls_secret_name, http_route_name, pvc_name,
  string_data, deployment, cron_job, volume_claim, autoscaler, service, docker_config,
  pull_secret_name, certificate, ingress_route,
}
use uran_api.K8s.Wire.{Wire, Request}
use uran_api.K8s.Workload.{
  auths, cron_container, deployment_of, hpa_cpu_target, hosts, https_route, http_route, Rollout,
  apply,
}
use uran_api.K8s.Ledger.{standing, onto, verdict, key_of, body_of}
use uran_api.K8s.Ledger.Laws.{carry-log, standing-onto}
use uran_api.K8s.Ledger.Verdicts.{
  Elsewhere, All-if, text_beq_refl, longer, final, ends_differ, verdict-hit, verdict-choice,
  verdict-later, verdict-append,
}
use uran_api.K8s.Ledger.Carried.{Ends-state, Ends-ok}
use uran_api.K8s.Plan.{
  routes_plan, routing_plan, running_plan, workload_plan, plan, disk_request, autoscaler_request,
  pull_request, env_request, deployment_request, cron_request, namespace_plan,
}
use uran_api.K8s.Plan.Carried.{apply-Ends, rollout_of-Quiet}
use uran_api.K8s.Plan.Keys.{disk_request-Elsewhere, autoscaler_request-Elsewhere}

-- The logins of all the registries, if there are any.
abbrev pub pull_body : List RegistryCred → Option Body
pull_body [] = none
pull_body (c ∷ cs) = some (docker_config (auths [] (c ∷ cs)))

module _ (base_domain cert_issuer : Text) where
  -- What stands for a spec, one key after the other.
  pub record Settled (s : ServiceSpec) (log : List Request) : Type 0 where
    pub env :
        standing log (key "Secret" s.namespace (env_secret_name s.name)) ≡ some (string_data s.env)
    pub pull : standing log (key "Secret" s.namespace pull_secret_name) ≡ pull_body s.pull_creds
    pub job :
        (s.type == Svctype.cron) ≡ true
        → standing log (key "CronJob" s.namespace s.name)
          ≡ some (cron_job s.schedule (cron_container s))
    pub disk :
        (s.type == Svctype.cron) ≡ false
        → standing log (key "PersistentVolumeClaim" s.namespace (pvc_name s.name))
          ≡ (if has_disk s then some (volume_claim s.disk_size) else none)
    pub running :
        (s.type == Svctype.cron) ≡ false
        → standing log (key "Deployment" s.namespace s.name) ≡ some (deployment (deployment_of s))
    pub scaling :
        (s.type == Svctype.cron) ≡ false
        → standing log (key "HorizontalPodAutoscaler" s.namespace s.name) ≡ (
            if autoscaled s
            then some (autoscaler s.name s.min_replicas s.max_replicas hpa_cpu_target)
            else none)
    pub routes :
        (s.type == Svctype.cron) ≡ false
        → Svctype.is_routable s.type ≡ true
        → (standing log (key "Service" s.namespace s.name) ≡ some (service 80 s.port))
          × (standing log (key "Certificate" s.namespace s.name)
              ≡ some (
                  certificate
                    (tls_secret_name s.name)
                    (hosts base_domain cert_issuer s)
                    cert_issuer))
          × (standing log (key "IngressRoute" s.namespace s.name)
              ≡ some (ingress_route (https_route base_domain cert_issuer s)))
          × (standing log (key "IngressRoute" s.namespace (http_route_name s.name))
              ≡ some (ingress_route (http_route base_domain cert_issuer s)))

module _ (base_domain cert_issuer : Text) (s : ServiceSpec) where
  routing_Elsewhere :
      (k : Key)
      → All (Elsewhere k) (routes_plan base_domain cert_issuer s)
      → All (Elsewhere k) (routing_plan base_domain cert_issuer s)
  routing_Elsewhere k a = All-if k _ (routes_plan base_domain cert_issuer s) [] a tt

  deployment_verdict :
      verdict (running_plan base_domain cert_issuer s) (key "Deployment" s.namespace s.name)
      ≡ some (some (deployment (deployment_of s)))
  unfolding key_of body_of same_key
  deployment_verdict = verdict-later (disk_request s) _ _ _ (
      verdict-hit (deployment_request s) _ (
        autoscaler_request-Elsewhere _ base_domain cert_issuer s refl,
        routing_Elsewhere _ (refl, (refl, (refl, (refl, tt)))),
      ))

  job_verdict :
      verdict (cron_request s ∷ []) (key "CronJob" s.namespace s.name)
      ≡ some (some (cron_job s.schedule (cron_container s)))
  unfolding key_of body_of
  job_verdict = verdict-hit (cron_request s) [] tt

  disk_verdict :
      verdict
        (running_plan base_domain cert_issuer s)
        (key "PersistentVolumeClaim" s.namespace (pvc_name s.name))
      ≡ some (if has_disk s then some (volume_claim s.disk_size) else none)
  unfolding key_of same_key
  disk_verdict = verdict-choice (has_disk s) _ _ _ (
    refl,
    (
      autoscaler_request-Elsewhere _ base_domain cert_issuer s refl,
      routing_Elsewhere _ (refl, (refl, (refl, (refl, tt)))),
    ),
  )

  autoscaler_verdict :
      verdict
        (running_plan base_domain cert_issuer s)
        (key "HorizontalPodAutoscaler" s.namespace s.name)
      ≡ some (
          if autoscaled s
          then some (autoscaler s.name s.min_replicas s.max_replicas hpa_cpu_target)
          else none)
  unfolding key_of same_key
  autoscaler_verdict = verdict-later (disk_request s) _ _ _ (
      verdict-later (deployment_request s) _ _ _ (
        verdict-choice (autoscaled s) _ _ _
          (routing_Elsewhere _ (refl, (refl, (refl, (refl, tt)))))))

  names_differ :
      same_key
        (key "IngressRoute" s.namespace (http_route_name s.name))
        (key "IngressRoute" s.namespace s.name)
      ≡ false
  unfolding same_key http_route_name
  names_differ = rw (text_beq_refl s.namespace) (longer s.name _ _)

  -- What the routes of a service are is the last word of its plan.
  routes_verdict :
      (k : Key) (b : Option Body)
      → Svctype.is_routable s.type ≡ true
      → verdict (routes_plan base_domain cert_issuer s) k ≡ some b
      → verdict (running_plan base_domain cert_issuer s) k ≡ some b
  routes_verdict k b r h = rw r (
      verdict-later (disk_request s) _ _ _
        (verdict-later (deployment_request s) _ _ _ (verdict-later (autoscaler_request s) _ _ _ h)))

  certificate_verdict :
      verdict (routes_plan base_domain cert_issuer s) (key "Certificate" s.namespace s.name)
      ≡ some (
          some (certificate (tls_secret_name s.name) (hosts base_domain cert_issuer s) cert_issuer))
  unfolding key_of body_of same_key
  certificate_verdict = verdict-hit _ _ (refl, (refl, (refl, tt)))

  service_verdict :
      verdict (routes_plan base_domain cert_issuer s) (key "Service" s.namespace s.name)
      ≡ some (some (service 80 s.port))
  unfolding key_of body_of same_key
  service_verdict = verdict-later _ _ _ _ (verdict-hit _ _ (refl, (refl, tt)))

  https_verdict :
      verdict (routes_plan base_domain cert_issuer s) (key "IngressRoute" s.namespace s.name)
      ≡ some (some (ingress_route (https_route base_domain cert_issuer s)))
  unfolding key_of body_of same_key
  https_verdict = verdict-later _ _ _ _ (verdict-later _ _ _ _ (verdict-hit _ _ (names_differ, tt)))

  http_verdict :
      verdict
        (routes_plan base_domain cert_issuer s)
        (key "IngressRoute" s.namespace (http_route_name s.name))
      ≡ some (some (ingress_route (http_route base_domain cert_issuer s)))
  unfolding key_of body_of
  http_verdict =
      verdict-later _ _ _ _ (verdict-later _ _ _ _ (verdict-later _ _ _ _ (verdict-hit _ _ tt)))

  -- What the workload's requests say last stands after the whole plan.
  workload_stands :
      (k : Key) (b : Option Body) (log : List Request)
      → verdict (workload_plan base_domain cert_issuer s) k ≡ some b
      → standing (onto (plan base_domain cert_issuer s) log) k ≡ b
  workload_stands k b log h =
      standing-onto (plan base_domain cert_issuer s) log k
      ∙ ap (λ v. get_or v (standing log k))
          (verdict-append (namespace_plan s.namespace) _ k b
            (verdict-later _ _ k b (verdict-later _ _ k b h)))

  secrets_Elsewhere :
      (name : Text)
      → All (Elsewhere (key "Secret" s.namespace name)) (workload_plan base_domain cert_issuer s)
  unfolding key_of same_key
  secrets_Elsewhere name =
      All-if _ _ (cron_request s ∷ []) (running_plan base_domain cert_issuer s) (refl, tt)
        (
          disk_request-Elsewhere _ base_domain cert_issuer s refl,
          (
            refl,
            (
              autoscaler_request-Elsewhere _ base_domain cert_issuer s refl,
              routing_Elsewhere _ (refl, (refl, (refl, (refl, tt)))),
            ),
          ),
        )

  pull_verdict :
      (cs : List RegistryCred)
      → verdict
          (pull_request s.namespace cs ∷ env_request s ∷ workload_plan base_domain cert_issuer s)
          (key "Secret" s.namespace pull_secret_name)
        ≡ some (pull_body cs)
  unfolding key_of body_of same_key env_secret_name final
  pull_verdict [] =
      verdict-hit _ _ (
        rw (text_beq_refl s.namespace) (ends_differ s.name _ _ _ (omega arith)),
        secrets_Elsewhere _,
      )
  pull_verdict (c ∷ cs) =
      verdict-hit _ _ (
        rw (text_beq_refl s.namespace) (ends_differ s.name _ _ _ (omega arith)),
        secrets_Elsewhere _,
      )

  env_stands :
      (log : List Request)
      → standing
          (onto (plan base_domain cert_issuer s) log)
          (key "Secret" s.namespace (env_secret_name s.name))
        ≡ some (string_data s.env)
  unfolding key_of body_of same_key
  env_stands log =
      standing-onto (plan base_domain cert_issuer s) log _
      ∙ ap (λ v. get_or v (standing log (key "Secret" s.namespace (env_secret_name s.name))))
          (verdict-append (namespace_plan s.namespace) _ _ _
            (verdict-later _ _ _ _ (verdict-hit (env_request s) _ (secrets_Elsewhere _))))

  pull_stands :
      (log : List Request)
      → standing
          (onto (plan base_domain cert_issuer s) log)
          (key "Secret" s.namespace pull_secret_name)
        ≡ pull_body s.pull_creds
  pull_stands log =
      standing-onto (plan base_domain cert_issuer s) log _
      ∙ ap (λ v. get_or v (standing log (key "Secret" s.namespace pull_secret_name)))
          (verdict-append (namespace_plan s.namespace) _ _ _ (pull_verdict s.pull_creds))

  plan-Settled :
      (log : List Request)
      → Settled base_domain cert_issuer s (onto (plan base_domain cert_issuer s) log)
  plan-Settled log = record {
    env = env_stands log;
    job = λ c. workload_stands _ _ log (rw c job_verdict);
    pull = pull_stands log;
    disk = λ c. workload_stands _ _ log (rw c disk_verdict);
    running = λ c. workload_stands _ _ log (rw c deployment_verdict);
    scaling = λ c. workload_stands _ _ log (rw c autoscaler_verdict);
    routes = λ c r.
        let stands : (k : Key) (b : Option Body)
            → verdict (routes_plan base_domain cert_issuer s) k ≡ some b
            → standing (onto (plan base_domain cert_issuer s) log) k ≡ b =
          λ k b h. workload_stands k b log (rw c (routes_verdict k b r h)) in
        (
          stands _ _ service_verdict,
          stands _ _ certificate_verdict,
          stands _ _ https_verdict,
          stands _ _ http_verdict,
        );
  }

  module _ (observed : Text → Text → List (Option Rollout)) where
    pub apply-Settled :
        (w : Wire)
        → (apply base_domain cert_issuer observed s w).0 ≡ ok tt
        → Settled base_domain cert_issuer s (apply base_domain cert_issuer observed s w).1.log
    apply-Settled w h =
        let done_ = apply-Ends base_domain cert_issuer observed s in
        let logged =
          ap (λ v. v.log) (Ends-state _ _ _ done_ w (rollout_of-Quiet observed s))
          ∙ carry-log (plan base_domain cert_issuer s) w (Ends-ok _ _ _ done_ w h) in
        subst (Settled base_domain cert_issuer s) (sym logged) (plan-Settled w.log)
