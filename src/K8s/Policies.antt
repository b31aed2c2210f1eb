-- ===== src/K8s/Policies.antt =====
-- internal/k8s/policies.go and ensureNamespace of reconcile.go.
use uran_api.Prelude.{Text, List, [], ◌∷◌}
use uran_api.Exec.{◌>>◌}
use uran_api.Go.Text.{codes}
use uran_api.Instance.{Resources}
use uran_api.K8s.Objects.{
  object, Quota, Peer, same_namespace, namespace_named, managed_namespace, resource_quota,
  limit_range, network_policy,
}
use uran_api.K8s.Wire.{Action, put, request}

-- Twenty pods, 4 and 8 cores, 8Gi and 16Gi.
abbrev pub quota : Quota
quota = record {
  pods = 20;
  requests_cpu = 4000;
  requests_memory = 8192;
  limits_cpu = 8000;
  limits_memory = 16384;
}

-- What a container gets that asks for nothing.
abbrev pub container_defaults : Resources
container_defaults = record { cpu_request = 50; mem_request = 64; cpu_limit = 500; mem_limit = 256 }

abbrev pub peers : List Peer
peers =
    same_namespace
    ∷ namespace_named (codes "kube-system")
    ∷ namespace_named (codes "cnpg-system")
    ∷ []

unfoldable pub ensure_namespace : Text → Action Unit
ensure_namespace ns = request (put (object "Namespace" [] ns managed_namespace))

unfoldable pub apply_resource_quota : Text → Action Unit
apply_resource_quota ns =
    request (put (object "ResourceQuota" ns (codes "uran-quota") (resource_quota quota)))

unfoldable pub apply_limit_range : Text → Action Unit
apply_limit_range ns =
    request (put (object "LimitRange" ns (codes "uran-limits") (limit_range container_defaults)))

unfoldable pub apply_network_policy : Text → Action Unit
apply_network_policy ns =
    request (put (object "NetworkPolicy" ns (codes "uran-isolation") (network_policy peers)))

unfoldable pub apply_namespace_policies : Text → Action Unit
unfolding apply_resource_quota apply_limit_range apply_network_policy
apply_namespace_policies ns = do
  apply_resource_quota ns
  apply_limit_range ns
  apply_network_policy ns
