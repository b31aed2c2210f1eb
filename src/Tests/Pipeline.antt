-- ===== src/Tests/Pipeline.antt =====
-- The builder and the controller at concrete inputs.
use uran_api.Prelude.{
  string_eq, text_beq, find, select, update, true, none, some, [], ◌∷◌, ◌≡◌, ◌≢◌, refl, ◌↔◌, arith,
  All,
}
use uran_api.Exec.{ok}
use uran_api.Go.Text.{codes}
use uran_api.Go.Decimal.{format_nat}
use uran_api.Deploy.{
  status_queued, status_building, status_deploying, status_live, status_failed, can_transition,
  is_terminal, transitions,
}
use uran_api.Deploy.Lifecycle.{Moves, can_transition_iff}
use uran_api.K8s.{ServiceSpec, apply}
use uran_api.Store.{World, statement, deployment_channel}
use uran_api.Store.Deploys.{has_id, with_status, claim_queued_deploy, set_status}
use uran_api.Store.Lineage.{Falling, Origin}
use uran_api.Builder.{process, ship, fail}
use uran_api.Builder.Delivery.{ship-delivers, fail-marks}
use uran_api.Builder.Ends.{Ended, process-Ended}
use uran_api.Builder.Interleaving.{next, stop, writes, claims_at_most_once}
use uran_api.Builder.Outcomes.{process-Origin}
use uran_api.Controller.{reconcile}
use uran_api.Deploy.{kind_production}
use uran_api.Naming.{namespace_for_org, workload_name}
use uran_api.K8s.Objects.{key, Deployment, deployment}
use uran_api.K8s.Workload.{Rollout, rollout_complete}
use uran_api.K8s.Workload as Workload
use uran_api.K8s.Ledger.{standing}
use uran_api.K8s.Convergence.Completion.{now}
use uran_api.Controller.Delivered.{reconcile-delivers}
use uran_api.Controller.GoLive.{Describes, reconcile-live}
use uran_api.Controller.Lifecycle.{reconcile-Origin}
use uran_api.Tests.World.{
  a_rollout, a_rollout_complete, a_wire, svc, row, build_row, world_of, start, backend,
  start-Falling,
}

claims_at_most_once_example :
    (claim_queued_deploy 1 (set_status 1 status_failed (claim_queued_deploy 1 start).1).1).0
    ≢ ok true
unfolding claim_queued_deploy statement select update
claims_at_most_once_example =
    claims_at_most_once 1 start (set_status 1 status_failed (claim_queued_deploy 1 start).1).1
      start-Falling refl (next stop (writes 1 status_failed refl))

process-Origin_example :
    let w' = (process backend (codes "r") 1 start).1 in
    Falling w'.next_deploy w'.deploys × All (Origin start.db) w'.deploys
process-Origin_example = process-Origin backend (codes "r") 1 start start-Falling

reconcile-Origin_example :
    let w' = (reconcile 1 (world_of (row 1 status_deploying (codes "i") ∷ []))).1 in
    Falling w'.next_deploy w'.deploys
    × All (Origin (world_of (row 1 status_deploying (codes "i") ∷ [])).db) w'.deploys
reconcile-Origin_example =
    reconcile-Origin 1 (world_of (row 1 status_deploying (codes "i") ∷ [])) (omega arith, tt)

ship-delivers_example :
    (find (has_id 1) (ship 1 1 (codes "i") (world_of (row 1 status_building [] ∷ []))).1.deploys
      ≡ some (record (row 1 status_deploying []) { image = codes "i"; updated_at = 9 }))
    × ((ship 1 1 (codes "i") (world_of (row 1 status_building [] ∷ []))).1.notes
        ≡ record { channel = deployment_channel; payload = format_nat 1 } ∷ [])
unfolding find
ship-delivers_example =
    ship-delivers 1 1 (codes "i") (world_of (row 1 status_building [] ∷ []))
      (row 1 status_building []) (λ n. refl) refl refl

fail-marks_example :
    find (has_id 1) (fail 1 1 (world_of (row 1 status_building [] ∷ []))).1.deploys
    ≡ some (with_status status_failed 9 (row 1 status_building []))
unfolding find is_terminal transitions
fail-marks_example =
    fail-marks 1 1 (world_of (row 1 status_building [] ∷ [])) (row 1 status_building []) (λ n. refl)
      refl refl

can_transition_iff_example :
    (can_transition status_queued status_live ≡ true) ↔ Moves status_queued status_live
can_transition_iff_example = can_transition_iff status_queued status_live

abbrev deploying : World
deploying = world_of (row 1 status_deploying (codes "i") ∷ [])

reconcile-live_example :
    (find (has_id 1) (reconcile 1 deploying).1.deploys
      ≡ some (with_status status_live 9 (row 1 status_deploying (codes "i"))))
    × ((spec : ServiceSpec) × ((reconcile 1 deploying).1.calls ≡ apply spec ∷ [])
        × Describes spec (row 1 status_deploying (codes "i")) svc 3)
unfolding find text_beq
reconcile-live_example =
    reconcile-live 1 deploying (row 1 status_deploying (codes "i")) svc
      (record { id = 1; org_id = 3; name = codes "P"; slug = codes "p" }) (λ n. refl) refl refl refl
      refl refl

process-Ended_example : Ended 1 (process backend (codes "r") 1 start).1
unfolding find
process-Ended_example =
    process-Ended backend (codes "r") 1 start (row 1 status_queued []) svc
      (record { id = 1; org_id = 3; name = codes "P"; slug = codes "p" }) build_row (λ n. refl)
      start-Falling refl refl refl refl refl

reconcile-delivers_example :
    (find (has_id 1) (reconcile 1 deploying).1.deploys
      ≡ some (with_status status_live 9 (row 1 status_deploying (codes "i"))))
    × ((spec : ServiceSpec) × (dep : Deployment) × ((reconcile 1 deploying).1.calls
          ≡ apply spec ∷ [])
        × (standing
              (Workload.apply
                (codes "d")
                (codes "c")
                (λ namespace name. some a_rollout ∷ [])
                spec
                a_wire).1.log
              (key "Deployment"
                (namespace_for_org 3)
                (workload_name (codes "web") kind_production none))
            ≡ some (deployment dep))
        × (dep.container.image ≡ codes "i"))
unfolding find text_beq
reconcile-delivers_example =
    reconcile-delivers (codes "d") (codes "c") (λ namespace name. some a_rollout ∷ []) 1 deploying
      (row 1 status_deploying (codes "i")) svc
      (record { id = 1; org_id = 3; name = codes "P"; slug = codes "p" }) a_wire (λ n. refl)
      (λ n. refl) (λ namespace name. now a_rollout [] a_rollout_complete) refl refl refl refl refl
      (λ disk. refl) refl
