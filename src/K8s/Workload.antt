-- ===== src/K8s/Workload.antt =====
-- internal/k8s: reconcile.go, cronjob.go, hpa.go, volume.go and pullsecret.go. `base_domain` and
-- `cert_issuer` are the reconciler's settings. `observed` is what the polls of a Deployment find, up
-- to the deadline.
use uran_api.Prelude.{
  ℕ, ℤ, pos, Text, Bool, not, ◌&&◌, Option, none, some, List, [], ◌∷◌, ◌++◌, map, if◌then◌else◌,
  ◌==◌, string_eq, text_eq, nat_eq, int_beq,
}
use mathlib.Core.Option.{get_or}
use uran_api.Exec.{ok, err, pure, lift, Result, ◌>>◌}
use uran_api.Go.Text.{codes, join}
use uran_api.Go.Decimal.{format_nat}
use uran_api.Instance.{get}
use uran_api.Svctype
use uran_api.Go.Map as Map
use uran_api.K8s.{ServiceSpec, RegistryCred, has_disk, autoscaled}
use uran_api.K8s.Objects.{
  key, object, env_secret_name, tls_secret_name, http_route_name, pvc_name, pull_secret_name, Probe,
  http_get, tcp_socket, Container, Deployment, Route, Login, docker_config, string_data, deployment,
  cron_job, volume_claim, autoscaler, service, certificate, ingress_route,
}
use uran_api.K8s.Wire.{Action, Fault, timed_out, put, drop, request}
use uran_api.K8s.Policies.{ensure_namespace, apply_namespace_policies}

-- The map of `dockerConfigJSON`; base64 and JSON are left to the server's reader.
unfoldable pub auths : List (Text × Login) → List RegistryCred → List (Text × Login)
auths m [] = m
auths m (c ∷ cs) =
    auths (Map.put c.registry (record { username = c.username; password = c.password }) m) cs

unfoldable pub reconcile_pull_secret : Text → List RegistryCred → Action Unit
unfolding auths
reconcile_pull_secret namespace [] = request (drop (key "Secret" namespace pull_secret_name))
reconcile_pull_secret namespace (c ∷ cs) =
    request (put (object "Secret" namespace pull_secret_name (docker_config (auths [] (c ∷ cs)))))

unfoldable pub apply_env_secret : ServiceSpec → Action Unit
apply_env_secret s =
    request (put (object "Secret" s.namespace (env_secret_name s.name) (string_data s.env)))

unfoldable pub pull_secret_of : ServiceSpec → Option Text
pull_secret_of s = elim s.pull_creds [ [] ↦ none | c ∷ cs ↦ some pull_secret_name ]

unfoldable pub cron_container : ServiceSpec → Container
unfolding pull_secret_of
cron_container s = record {
  name = "app";
  image = s.image;
  args = [];
  port = none;
  resources = get s.instance_size;
  port_env = none;
  env_from = some (env_secret_name s.name);
  probe = none;
  mount = none;
  pull_secret = pull_secret_of s;
}

unfoldable pub apply_cron_job : ServiceSpec → Action Unit
unfolding cron_container
apply_cron_job s =
    request (put (object "CronJob" s.namespace s.name (cron_job s.schedule (cron_container s))))

unfoldable pub delete_pvc : Text → Text → Action Unit
delete_pvc namespace name = request (drop (key "PersistentVolumeClaim" namespace name))

unfoldable pub reconcile_disk : ServiceSpec → Action Unit
unfolding delete_pvc
reconcile_disk s =
    if not (has_disk s)
    then delete_pvc s.namespace (pvc_name s.name)
    else request (
        put
          (object "PersistentVolumeClaim" s.namespace (pvc_name s.name) (volume_claim s.disk_size)))

unfoldable pub health_probe : ServiceSpec → Probe
health_probe s =
    if not (s.health_path == []) then http_get s.health_path s.port else tcp_socket s.port

unfoldable pub app_container : ServiceSpec → Container
unfolding pull_secret_of health_probe
app_container s = record {
  name = "app";
  image = s.image;
  args = [];
  port = some s.port;
  resources = get s.instance_size;
  port_env = some (format_nat s.port);
  env_from = some (env_secret_name s.name);
  probe = if Svctype.is_routable s.type then some (health_probe s) else none;
  mount = if has_disk s then some (pvc_name s.name, s.disk_path) else none;
  pull_secret = pull_secret_of s;
}

-- The `switch` of `applyDeployment`.
unfoldable pub deployment_of : ServiceSpec → Deployment
unfolding app_container
deployment_of s =
    if s.suspended
    then record { container = app_container s; replicas = some (pos 0); strategy = none }
    else if has_disk s
    then record {
      container = app_container s;
      replicas = some (pos 1);
      strategy = some (record { max_surge = 0; max_unavailable = 1 });
    }
    else if not (autoscaled s)
    then record { container = app_container s; replicas = some s.replicas; strategy = none }
    else record { container = app_container s; replicas = none; strategy = none }

unfoldable pub apply_deployment : ServiceSpec → Action Unit
unfolding deployment_of
apply_deployment s =
    request (put (object "Deployment" s.namespace s.name (deployment (deployment_of s))))

abbrev pub hpa_cpu_target : ℕ
hpa_cpu_target = 70

unfoldable pub delete_autoscaler : Text → Text → Action Unit
delete_autoscaler namespace name = request (drop (key "HorizontalPodAutoscaler" namespace name))

unfoldable pub reconcile_autoscaler : ServiceSpec → Action Unit
unfolding delete_autoscaler
reconcile_autoscaler s =
    if not (autoscaled s)
    then delete_autoscaler s.namespace s.name
    else request (
        put (
          object "HorizontalPodAutoscaler" s.namespace s.name
            (autoscaler s.name s.min_replicas s.max_replicas hpa_cpu_target)))

unfoldable pub apply_service : ServiceSpec → Action Unit
apply_service s = request (put (object "Service" s.namespace s.name (service 80 s.port)))

unfoldable pub host_match : List Text → Text
unfolding join
host_match hs = join (codes " || ") (map (λ (h : Text). codes "Host(`" ++ (h ++ codes "`)")) hs)

-- What a Deployment reports.
pub record Rollout : Type 0 where
  pub replicas : Option ℤ
  pub generation : ℕ
  pub observed_generation : ℕ
  pub updated_replicas : ℤ
  pub available_replicas : ℤ

unfoldable pub rollout_complete : Rollout → Bool
rollout_complete d =
    let desired = get_or d.replicas (pos 1) in
    d.generation == d.observed_generation
    && (int_beq d.updated_replicas desired && int_beq d.available_replicas desired)

-- A poll that fails finds `none`.
unfoldable pub poll : List (Option Rollout) → Result Fault Unit
unfolding rollout_complete
poll [] = err timed_out
poll (none ∷ os) = poll os
poll (some d ∷ os) = let rest = poll os in if rollout_complete d then ok tt else rest

unfoldable pub wait_for_rollout : (Text → Text → List (Option Rollout)) → Text → Text → Action Unit
unfolding poll
wait_for_rollout observed namespace name = lift (poll (observed namespace name))

module _ (base_domain cert_issuer : Text) where
  unfoldable pub host : ServiceSpec → Text
  host s = s.name ++ (codes "." ++ base_domain)

  unfoldable pub hosts : ServiceSpec → List Text
  unfolding host
  hosts s = host s ∷ s.domains

  unfoldable pub apply_certificate : ServiceSpec → Action Unit
  unfolding hosts
  apply_certificate s = request (
      put (
        object "Certificate" s.namespace s.name
          (certificate (tls_secret_name s.name) (hosts s) cert_issuer)))

  unfoldable pub https_route : ServiceSpec → Route
  unfolding hosts host_match
  https_route s = record {
    service = s.name;
    rule = host_match (hosts s);
    entry_point = "websecure";
    tls_secret = some (tls_secret_name s.name);
  }

  unfoldable pub http_route : ServiceSpec → Route
  unfolding hosts host_match
  http_route s = record {
    service = s.name;
    rule = host_match (hosts s);
    entry_point = "web";
    tls_secret = none;
  }

  unfoldable pub apply_ingress_route : ServiceSpec → Action Unit
  unfolding https_route http_route
  apply_ingress_route s = do
    request (put (object "IngressRoute" s.namespace s.name (ingress_route (https_route s))))
    request (
        put (
          object "IngressRoute" s.namespace (http_route_name s.name)
            (ingress_route (http_route s))))

  -- What the routable types have beside the others.
  unfoldable pub apply_routing : ServiceSpec → Action Unit
  unfolding apply_certificate apply_service apply_ingress_route
  apply_routing s =
      if Svctype.is_routable s.type
      then (do apply_certificate s; apply_service s; apply_ingress_route s)
      else pure tt

  module _ (observed : Text → Text → List (Option Rollout)) where
    -- All types but cron.
    unfoldable pub apply_running : ServiceSpec → Action Unit
    unfolding reconcile_disk apply_deployment reconcile_autoscaler apply_routing wait_for_rollout
    apply_running s = do
      reconcile_disk s
      apply_deployment s
      reconcile_autoscaler s
      apply_routing s
      wait_for_rollout observed s.namespace s.name

    unfoldable pub apply : ServiceSpec → Action Unit
    unfolding ensure_namespace apply_namespace_policies reconcile_pull_secret apply_env_secret
        apply_cron_job apply_running
    apply s = do
      ensure_namespace s.namespace
      apply_namespace_policies s.namespace
      reconcile_pull_secret s.namespace s.pull_creds
      apply_env_secret s
      if s.type == Svctype.cron then apply_cron_job s else apply_running s

unfoldable pub delete : Text → Text → Action Unit
unfolding delete_autoscaler delete_pvc
delete namespace name = do
  request (drop (key "Deployment" namespace name))
  request (drop (key "CronJob" namespace name))
  delete_autoscaler namespace name
  delete_pvc namespace (pvc_name name)
  request (drop (key "Service" namespace name))
  request (drop (key "Secret" namespace (env_secret_name name)))
  request (drop (key "IngressRoute" namespace name))
  request (drop (key "IngressRoute" namespace (http_route_name name)))
  request (drop (key "Certificate" namespace name))
  request (drop (key "Secret" namespace (tls_secret_name name)))

unfoldable pub delete_namespace : Text → Action Unit
delete_namespace namespace = request (drop (key "Namespace" [] namespace))
