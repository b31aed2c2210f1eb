-- ===== src/Builder/Claims.antt =====
-- The claim that keeps two workers off one deploy.
use mathlib.Core.Path.{subst}
use uran_api.Prelude.{
  ℕ, ◌<◌, ◌≡◌, ◌≢◌, refl, ◌∙◌, inl, inr, Bool, true, false, ◌&&◌, List, [], ◌∷◌, arith, ◌==◌,
  nat_eq, string_eq, if◌then◌else◌, nat_beq_iff, eq_iff, Text, select, update, All, length,
  Bool-cases,
}
use uran_api.Exec.{ok, pure, raise, ◌>>=◌, catch, or_raise, guard}
use uran_api.Exec.Respects.{IsPreorder, Respects}
use uran_api.Store.Through.{Through, through_rules}
use uran_api.Deploy.{status_queued, status_building}
use uran_api.Store.{Db, World, statement}
use uran_api.Store.Models.{Deploy, Service, Build}
use uran_api.Store.Deploys.{
  has_id, with_status, claim_queued_deploy, deploy_by_id, service_by_id, build_by_deploy_id,
}
use uran_api.Builder.{Backend, build_claimed, process}
use uran_api.Store.Lineage.{Falling}

abbrev pub claimable : ℕ → Deploy → Bool
claimable id d = has_id id d && d.status == status_queued

pub of_claimable :
    (id : ℕ) (d : Deploy) → claimable id d ≡ true → (d.id ≡ id) × (d.status ≡ status_queued)
of_claimable id d h =
    ((nat_beq_iff d.id id).0 (ground arith), (eq_iff d.status status_queued).0 (ground arith))

update-Taken :
    (id now : ℕ) (ds : List Deploy)
    → All (λ d. claimable id d ≡ false) (update (claimable id) (with_status status_building now) ds)
unfolding update
update-Taken id now [] = tt
update-Taken id now (d ∷ ds) = (go (claimable id d) refl, update-Taken id now ds)
  where
    go :
        (b : Bool)
        → claimable id d ≡ b
        → claimable id (if b then with_status status_building now d else d) ≡ false
    go true e = ground arith
    go false e = e

select-Taken :
    (id : ℕ) (ds : List Deploy)
    → All (λ d. claimable id d ≡ false) ds
    → select (claimable id) ds ≡ []
unfolding select
select-Taken id [] a = refl
select-Taken id (d ∷ ds) a = rw a.0 (select-Taken id ds a.1)

below :
    (n id : ℕ) (ds : List Deploy)
    → Falling n ds
    → (length (select (claimable id) ds) == 1) ≡ true
    → id < n
unfolding select
below n id [] f h = absurd (ground arith)
below n id (d ∷ ds) f h = elim (Bool-cases (claimable id d)) [
  | inl e ↦ omega (arith, (of_claimable id d e).0, f.0)
  | inr e ↦ omega (
    arith,
    below d.id id ds f.1 (
        subst
          (λ b.
            (length (if b then d ∷ select (claimable id) ds else select (claimable id) ds) == 1)
            ≡ true)
          e h),
    f.0,
  )
]

pub claimed :
    (id : ℕ) (w : World)
    → Falling w.next_deploy w.deploys
    → (claim_queued_deploy id w).0 ≡ ok true
    → (id < w.next_deploy)
      × ((claim_queued_deploy id w).1.next_deploy ≡ w.next_deploy)
      × All (λ d. claimable id d ≡ false) (claim_queued_deploy id w).1.deploys
unfolding claim_queued_deploy statement
claimed id w f h =
    ground (arith, below w.next_deploy id w.deploys f, update-Taken id w.now w.deploys)

pub not_claimed :
    (id : ℕ) (w : World)
    → All (λ d. claimable id d ≡ false) w.deploys
    → (claim_queued_deploy id w).0 ≢ ok true
unfolding claim_queued_deploy statement
not_claimed id w a h = ground (arith, select-Taken id w.deploys a)

no_update :
    (id now : ℕ) (ds : List Deploy)
    → All (λ d. claimable id d ≡ false) ds
    → update (claimable id) (with_status status_building now) ds ≡ ds
unfolding update
no_update id now [] a = refl
no_update id now (d ∷ ds) a = rw (a.0, no_update id now ds a.1) refl

claim-idle :
    (id : ℕ) (w : World)
    → All (λ d. claimable id d ≡ false) w.deploys
    → ((claim_queued_deploy id w).0 ≢ ok true) × ((claim_queued_deploy id w).1.db ≡ w.db)
unfolding claim_queued_deploy statement
claim-idle id w a = (not_claimed id w a, ground (arith, no_update id w.now w.deploys a))

build_claimed-idle :
    (backend : Backend) (registry : Text) (id : ℕ) (d : Deploy) (s : Service) (b : Build)
    (w : World)
    → All (λ d. claimable id d ≡ false) w.deploys
    → (build_claimed backend registry id d s b w).1.db ≡ w.db
unfolding build_claimed ◌>>=◌ or_raise catch guard pure raise
build_claimed-idle backend registry id d s b w a = ground (arith, claim-idle id w a)

-- Nothing changes while the deploy cannot be claimed.
record Idle (id : ℕ) (s t : Db) : Type 0 where
  at : All (λ d. claimable id d ≡ false) s.deploys → t ≡ s

Idle-IsPreorder : (id : ℕ) → IsPreorder (Idle id)
Idle-IsPreorder id = record {
  rfl = λ s. record { at = λ a. refl };
  trans = λ s t u p q. record { at = λ a. q.at (rw (p.at a) a) ∙ p.at a };
}

module _ (backend : Backend) (registry : Text) (id : ℕ) where
  build_claimed-Idle :
      (d : Deploy) (s : Service) (b : Build)
      → Respects (Through (Idle id)) (build_claimed backend registry id d s b)
  build_claimed-Idle d s b = record {
    at = λ w. record { at = record { at = λ a. build_claimed-idle backend registry id d s b w a } };
  }

  deploy_by_id-Idle : (n : ℕ) → Respects (Through (Idle id)) (deploy_by_id n)
  unfolding deploy_by_id
  deploy_by_id-Idle n = search (through_rules, Idle-IsPreorder)

  service_by_id-Idle : (n : ℕ) → Respects (Through (Idle id)) (service_by_id n)
  unfolding service_by_id
  service_by_id-Idle n = search (through_rules, Idle-IsPreorder)

  build_by_deploy_id-Idle : (n : ℕ) → Respects (Through (Idle id)) (build_by_deploy_id n)
  unfolding build_by_deploy_id
  build_by_deploy_id-Idle n = search (through_rules, Idle-IsPreorder)

  process-Idle : Respects (Through (Idle id)) (process backend registry id)
  unfolding process
  process-Idle =
      search
        (
          through_rules, Idle-IsPreorder, deploy_by_id-Idle, service_by_id-Idle,
          build_by_deploy_id-Idle, build_claimed-Idle,
        )
        depth 8

-- A worker that is told of a deploy that is not queued, or of none, changes no table, whatever the
-- build backend would do and whichever requests fail.
process-idle :
    (backend : Backend) (registry : Text) (id : ℕ) (w : World)
    → All (λ d. (has_id id d && d.status == status_queued) ≡ false) w.deploys
    → (process backend registry id w).1.db ≡ w.db
process-idle backend registry id w a = ((process-Idle backend registry id).at w).at.at a
