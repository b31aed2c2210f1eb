-- ===== src/K8s/Convergence/Replicas.antt =====
-- internal/k8s/reconcile.go: a disk is mounted by one pod at a time.
use uran_api.Prelude.{
  ◌≡◌, refl, ◌∙◌, pos, Text, true, false, Bool-cases, inl, inr, Option, none, some, List,
  if◌then◌else◌, ◌==◌, string_eq, arith,
}
use uran_api.Exec.{ok}
use uran_api.Svctype
use uran_api.K8s.{ServiceSpec, has_disk, autoscaled}
use uran_api.K8s.Objects.{key, Deployment, deployment}
use uran_api.K8s.Wire.{Wire}
use uran_api.K8s.Workload.{deployment_of, Rollout, apply}
use uran_api.K8s.Ledger.{standing}
use uran_api.K8s.Convergence.{apply-Settled}

disk_replicas :
    (s : ServiceSpec)
    → has_disk s ≡ true
    → (deployment_of s).replicas ≡ some (pos (if s.suspended then 0 else 1))
unfolding deployment_of has_disk
disk_replicas s d = elim (Bool-cases s.suspended) [ inl h ↦ rw h refl | inr h ↦ rw (h, d) refl ]

disk_strategy :
    (s : ServiceSpec)
    → has_disk s ≡ true
    → s.suspended ≡ false
    → (deployment_of s).strategy ≡ some (record { max_surge = 0; max_unavailable = 1 })
unfolding deployment_of has_disk
disk_strategy s d h = rw (h, d) refl

disk_autoscaled : (s : ServiceSpec) → has_disk s ≡ true → autoscaled s ≡ false
unfolding autoscaled
disk_autoscaled s d = ground (arith, d)

module _ (base_domain cert_issuer : Text) (observed : Text → Text → List (Option Rollout)) where
  -- If `Apply` returns no error for a service with a disk that is not a cron job, then its Deployment
  -- asks for one pod, or for none when the service is suspended, an update of it starts no second pod
  -- while the service is not suspended, and no autoscaler stands, whatever stood before.
  pub disk_single_writer :
      (s : ServiceSpec) (w : Wire)
      → (s.type == Svctype.cron) ≡ false
      → has_disk s ≡ true
      → let (r, w') = apply base_domain cert_issuer observed s w in
        r ≡ ok tt
        → ((d : Deployment) × (standing w'.log (key "Deployment" s.namespace s.name)
              ≡ some (deployment d))
            × (d.replicas ≡ some (pos (if s.suspended then 0 else 1)))
            × (s.suspended ≡ false
                → d.strategy ≡ some (record { max_surge = 0; max_unavailable = 1 })))
          × (standing w'.log (key "HorizontalPodAutoscaler" s.namespace s.name) ≡ none)
  disk_single_writer s w c d h =
      let met = apply-Settled base_domain cert_issuer s observed w h in
      (
        (deployment_of s, met.running c, disk_replicas s d, disk_strategy s d),
        met.scaling c ∙ rw (disk_autoscaled s d) refl,
      )
