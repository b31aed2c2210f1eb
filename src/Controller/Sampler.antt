-- ===== src/Controller/Sampler.antt =====
-- internal/controller/usagesampler.go: a usage sample of each service. `metrics` stands for the metrics
-- reader: the CPU millicores and the memory of each pod that a selector matches. The sums stay far
-- below 2 ^ 63.
use uran_api.Prelude.{ℕ, ◌+◌, Text, List, [], ◌∷◌, ◌++◌}
use uran_api.Exec.{Result, ok, err, pure, ◌>>=◌, ◌>>◌, try, or_raise}
use uran_api.Go.Text.{codes}
use uran_api.Naming.{namespace_for_org}
use uran_api.Store.{Error}
use uran_api.Store.Reports.{MeteredService, services_for_metering, insert_usage_sample}
use uran_api.Task.{stopped, Task}

pub record PodMetric : Type 0 where
  pub pod : Text
  pub cpu_millicores : ℕ
  pub memory_bytes : ℕ

unfoldable pub total_usage : List PodMetric → ℕ × ℕ
total_usage [] = (0, 0)
total_usage (m ∷ ms) =
    let rest = total_usage ms in (m.cpu_millicores + rest.0, m.memory_bytes + rest.1)

unfoldable pub record_usage : MeteredService → Result Error (List PodMetric) → Task Unit
unfolding total_usage
record_usage svc (err e) = pure tt
record_usage svc (ok []) = pure tt
record_usage svc (ok (m ∷ ms)) = do
  try (insert_usage_sample svc.service_id (total_usage (m ∷ ms)).0 (total_usage (m ∷ ms)).1)
  pure tt

module _ (metrics : Text → Text → Result Error (List PodMetric)) where
  -- The loop of `sampleUsage`.
  unfoldable pub sample_each : List MeteredService → Task Unit
  unfolding record_usage
  sample_each [] = pure tt
  sample_each (svc ∷ svcs) = do
    record_usage svc
        (metrics (namespace_for_org svc.org_id) (codes "app.kubernetes.io/name=" ++ svc.slug))
    sample_each svcs

  unfoldable pub sample_usage : Task Unit
  unfolding sample_each
  sample_usage = do services ← or_raise services_for_metering stopped; sample_each services
