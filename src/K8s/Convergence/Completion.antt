-- ===== src/K8s/Convergence/Completion.antt =====
-- internal/k8s/reconcile.go: when `Apply` returns no error.
use uran_api.Prelude.{
  ◌≡◌, refl, ℕ, Text, true, false, Bool-cases, inl, inr, Option, none, some, List, [], ◌∷◌, All,
  All-cases, Bool, arith, ◌==◌, string_eq,
}
use uran_api.Exec.{ok, pure, lift}
use uran_api.Svctype
use uran_api.K8s.{ServiceSpec, RegistryCred, has_disk, autoscaled}
use uran_api.K8s.Wire.{Wire, Request, done, is_built}
use uran_api.K8s.Workload.{Rollout, apply, poll, wait_for_rollout, rollout_complete}
use uran_api.K8s.Ledger.Laws.{carry-done}
use uran_api.K8s.Ledger.Carried.{Ends-done}
use uran_api.K8s.Plan.{
  plan, pull_request, disk_request, autoscaler_request, routing_plan, running_plan, cron_request,
}
use uran_api.K8s.Plan.Carried.{apply-Ends}

-- A poll is enough that finds the rollout complete, among others that fail or find it going on.
pub data Completes : List (Option Rollout) → Type 0 where
  now :
      (d : Rollout) (os : List (Option Rollout))
      → rollout_complete d ≡ true
      → Completes (some d ∷ os)
  later : (o : Option Rollout) (os : List (Option Rollout)) → Completes os → Completes (o ∷ os)

Completes-poll : (os : List (Option Rollout)) → Completes os → poll os ≡ ok tt
unfolding poll
Completes-poll _ (now d os h) = rw h refl
Completes-poll _ (later none os c) = Completes-poll os c
Completes-poll _ (later (some d) os c) = ground (arith, Completes-poll os c)

-- The size of a volume of the spec is a quantity.
abbrev pub Sized : (Text → Bool) → ServiceSpec → Type 0
Sized quantity s = has_disk s ≡ true → quantity s.disk_size ≡ true

abbrev IsBuilt : (Text → Bool) → List Request → Type 0
IsBuilt quantity rs = All (λ r. is_built quantity r ≡ true) rs

module _ (base_domain cert_issuer : Text) (quantity : Text → Bool) where
  pull-built : (ns : Text) (cs : List RegistryCred) → is_built quantity (pull_request ns cs) ≡ true
  unfolding is_built
  pull-built ns [] = refl
  pull-built ns (c ∷ cs) = refl

  disk-built : (s : ServiceSpec) → Sized quantity s → is_built quantity (disk_request s) ≡ true
  unfolding is_built
  disk-built s h = elim (Bool-cases (has_disk s)) [ inl d ↦ rw d (h d) | inr d ↦ rw d refl ]

  scaler-built : (s : ServiceSpec) → is_built quantity (autoscaler_request s) ≡ true
  unfolding is_built
  scaler-built s = elim (Bool-cases (autoscaled s)) [ inl a ↦ rw a refl | inr a ↦ rw a refl ]

  routing-IsBuilt : (s : ServiceSpec) → IsBuilt quantity (routing_plan base_domain cert_issuer s)
  unfolding is_built
  routing-IsBuilt s =
      All-cases _ (Svctype.is_routable s.type) _ [] (λ r. (refl, (refl, (refl, (refl, tt)))))
        (λ r. tt)

  plan-IsBuilt :
      (s : ServiceSpec)
      → ((s.type == Svctype.cron) ≡ false → Sized quantity s)
      → IsBuilt quantity (plan base_domain cert_issuer s)
  unfolding is_built
  plan-IsBuilt s h = (
    refl,
    (
      refl,
      (
        refl,
        (
          refl,
          (
            pull-built s.namespace s.pull_creds,
            (
              refl,
              All-cases _ (s.type == Svctype.cron) (cron_request s ∷ [])
                  (running_plan base_domain cert_issuer s) (λ c. (refl, tt))
                  (λ c. (disk-built s (h c), (refl, (scaler-built s, routing-IsBuilt s)))),
            ),
          ),
        ),
      ),
    ),
  )

module _ (base_domain cert_issuer : Text) (observed : Text → Text → List (Option Rollout)) where
  -- If the server does all that it is asked and, for a service that is not a cron job, the size of its
  -- disk is a quantity, where it has one, and one of the polls of its Deployment finds the rollout
  -- complete, then `Apply` returns no error.
  pub apply-done :
      (s : ServiceSpec) (w : Wire)
      → ((n : ℕ) → w.answers n ≡ done)
      → ((s.type == Svctype.cron) ≡ false → Sized w.quantity s)
      → ((s.type == Svctype.cron) ≡ false → Completes (observed s.namespace s.name))
      → (apply base_domain cert_issuer observed s w).0 ≡ ok tt
  unfolding pure lift wait_for_rollout
  apply-done s w h sized c =
      Ends-done _ _ _ (apply-Ends base_domain cert_issuer observed s) w
        (carry-done (plan base_domain cert_issuer s) w h
          (plan-IsBuilt base_domain cert_issuer w.quantity s sized))
        (λ w'. elim (Bool-cases (s.type == Svctype.cron)) [
          | inl e ↦ rw e refl
          | inr e ↦ rw e (Completes-poll _ (c e))
        ])
