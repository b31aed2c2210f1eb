-- ===== src/K8s/Convergence/Suspension.antt =====
-- internal/k8s/cronjob.go: the suspension of a cron job.
use uran_api.Prelude.{◌≡◌, refl, Text, Bool, true, Option, List, ◌==◌, string_eq}
use uran_api.Svctype
use uran_api.K8s.{ServiceSpec}
use uran_api.K8s.Wire.{Wire}
use uran_api.K8s.Workload.{
  Rollout, apply, apply_env_secret, apply_cron_job, cron_container, pull_secret_of,
}

module _ (base_domain cert_issuer : Text) (observed : Text → Text → List (Option Rollout)) where
  -- For a service that is a cron job `Apply` does the same whether or not the service is suspended.
  pub cron_suspension :
      (s : ServiceSpec) (suspended : Bool) (w : Wire)
      → (s.type == Svctype.cron) ≡ true
      → apply base_domain cert_issuer observed (record s { suspended = suspended }) w
        ≡ apply base_domain cert_issuer observed s w
  unfolding apply apply_env_secret apply_cron_job cron_container pull_secret_of
  cron_suspension s suspended w c = rw c refl
