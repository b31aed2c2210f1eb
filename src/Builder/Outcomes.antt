-- ===== src/Builder/Outcomes.antt =====
-- What a run of `process` leaves behind.
use uran_api.Prelude.{ℕ, Text, List, [], ◌∷◌, nat_eq, string_eq, text_eq, All}
use uran_api.Exec.{Result, ok, err, try}
use uran_api.Exec.Respects.{IsPreorder, Respects, Respects-bind, Respects-pure}
use uran_api.Store.{World}
use uran_api.Store.Models.{Service, Deploy, Build}
use uran_api.Store.Deploys.{deploy_by_id, service_by_id, build_by_deploy_id, append_build_log}
use uran_api.Store.Services.{list_env_vars}
use uran_api.Store.Through.{Through, Through-IsPreorder, through_rules}
use uran_api.Store.Lineage.{Lineage, Lineage-IsPreorder, Falling, Origin}
use uran_api.Store.Lineage.Operations.{
  update_deploy_status-Lineage, claim_queued_deploy-Lineage, set_deploy_image-Lineage,
  start_build-Lineage, finish_build-Lineage, append_build_log-Lineage,
}
use uran_api.Builder.{
  Backend, build_args, write_chunks, fail, ship, settle, run_build, build_claimed, process,
}

-- The queries of the store leave the tables alone, so they respect the lineage.
deploy_by_id-Lineage : (id : ℕ) → Respects (Through Lineage) (deploy_by_id id)
unfolding deploy_by_id
deploy_by_id-Lineage id = search (through_rules, Lineage-IsPreorder)

service_by_id-Lineage : (id : ℕ) → Respects (Through Lineage) (service_by_id id)
unfolding service_by_id
service_by_id-Lineage id = search (through_rules, Lineage-IsPreorder)

build_by_deploy_id-Lineage : (id : ℕ) → Respects (Through Lineage) (build_by_deploy_id id)
unfolding build_by_deploy_id
build_by_deploy_id-Lineage id = search (through_rules, Lineage-IsPreorder)

list_env_vars-Lineage : (id : ℕ) → Respects (Through Lineage) (list_env_vars id)
unfolding list_env_vars
list_env_vars-Lineage id = search (through_rules, Lineage-IsPreorder)

ruleset lineage_rules = (
  through_rules, Lineage-IsPreorder, deploy_by_id-Lineage, service_by_id-Lineage,
  build_by_deploy_id-Lineage, list_env_vars-Lineage, update_deploy_status-Lineage,
  claim_queued_deploy-Lineage, set_deploy_image-Lineage, start_build-Lineage, finish_build-Lineage,
  append_build_log-Lineage,
)

build_args-Lineage : (id : ℕ) → Respects (Through Lineage) (build_args id)
unfolding build_args
build_args-Lineage id = search lineage_rules

write_chunks-Lineage : (id : ℕ) (cs : List Text) → Respects (Through Lineage) (write_chunks id cs)
unfolding write_chunks
write_chunks-Lineage id [] = search lineage_rules
write_chunks-Lineage id (c ∷ cs) =
    Respects-bind po (try (append_build_log id c)) _ (search lineage_rules) λ r.
      Respects-bind po (write_chunks id cs) _ (write_chunks-Lineage id cs) λ rs. Respects-pure po _
  where
    po : IsPreorder (Through Lineage)
    po = Through-IsPreorder Lineage-IsPreorder

fail-Lineage : (id build_id : ℕ) → Respects (Through Lineage) (fail id build_id)
unfolding fail
fail-Lineage id build_id = search lineage_rules

ship-Lineage : (id b : ℕ) (image : Text) → Respects (Through Lineage) (ship id b image)
unfolding ship
ship-Lineage id b image = search (lineage_rules, fail-Lineage) depth 8

settle-Lineage : (id b : ℕ) (r : Result Text Text) → Respects (Through Lineage) (settle id b r)
unfolding settle
settle-Lineage id b (ok image) = ship-Lineage id b image
settle-Lineage id b (err why) = search (lineage_rules, fail-Lineage)

module _ (backend : Backend) (registry : Text) where
  run_build-Lineage :
      (id : ℕ) (d : Deploy) (s : Service) (b : Build)
      → Respects (Through Lineage) (run_build backend registry id d s b)
  unfolding run_build
  run_build-Lineage id d s b =
      search (lineage_rules, build_args-Lineage, write_chunks-Lineage, settle-Lineage) depth 8

  build_claimed-Lineage :
      (id : ℕ) (d : Deploy) (s : Service) (b : Build)
      → Respects (Through Lineage) (build_claimed backend registry id d s b)
  unfolding build_claimed
  build_claimed-Lineage id d s b = search (lineage_rules, run_build-Lineage) depth 8

  process-Lineage : (id : ℕ) → Respects (Through Lineage) (process backend registry id)
  unfolding process
  process-Lineage id = search (lineage_rules, build_claimed-Lineage) depth 8

-- Whatever the backend does and whichever requests fail: while ids fall along the table, they do so
-- after a run of the pipeline, and every deploy then has come, by moves of the state machine, from
-- the row of its id or from the status of a new deploy, with its service and kind unchanged.
pub process-Origin :
    (backend : Backend) (registry : Text) (id : ℕ) (w : World)
    → Falling w.next_deploy w.deploys
    → let w' = (process backend registry id w).1 in
      Falling w'.next_deploy w'.deploys × All (Origin w.db) w'.deploys
process-Origin backend registry id w f =
    let l = ((process-Lineage backend registry id).at w).at in (l.keyed f, l.traced f)
