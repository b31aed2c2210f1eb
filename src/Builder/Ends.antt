-- ===== src/Builder/Ends.antt =====
-- A deploy that is claimed does not stay building.
use uran_api.Prelude.{
  ℕ, suc, ◌≤◌, String, Text, ◌≡◌, refl, ◌⊎◌, inl, inr, true, false, some, List, [], ◌∷◌, arith,
  ◌==◌, nat_eq, string_eq, find, select, update, find-update, length, Bool-cases, eq_iff,
  nat_beq_iff,
}
use uran_api.Exec.{Result, ok, err, pure, ◌>>=◌, catch, try, or_raise, guard}
use uran_api.Exec.Respects.{
  Respects, Respects-bind, Respects-pure, Kept, Kept-IsPreorder, respects_rules,
}
use uran_api.Deploy.{
  status_queued, status_building, status_deploying, status_failed, is_terminal, transitions,
  build_running,
}
use uran_api.Store.{Error, World, Healthy, statement, query}
use uran_api.Store.Models.{Deploy, Service, Project, Build}
use uran_api.Store.Deploys.{
  has_id, with_status, claim_queued_deploy, start_build, append_build_log, deploy_by_id,
  service_by_id, build_by_deploy_id,
}
use uran_api.Store.Services.{list_env_vars}
use uran_api.Store.Lineage.{Falling}
use uran_api.Builder.{
  Request, Backend, image_of, args_of, build_args, write_chunks, settle, run_build, build_claimed,
  process,
}
use uran_api.Builder.Claims.{claimable}
use uran_api.Builder.Delivery.{ship-delivers, fail-marks}

-- No request fails, and the row of that id is `d`.
record Standing (id : ℕ) (d : Deploy) (w : World) : Type 0 where
  healthy : Healthy w
  row : find (has_id id) w.deploys ≡ some d

Standing-same :
    (id : ℕ) (d : Deploy) (w w' : World)
    → (w'.down ≡ w.down) × (w'.deploys ≡ w.deploys)
    → Standing id d w
    → Standing id d w'
Standing-same id d w w' e h = record { healthy = λ n. rw e.0 (h.healthy n); row = rw e.1 h.row }

module _ (id : ℕ) (d : Deploy) where
  append_build_log-Standing :
      (b : ℕ) (chunk : Text) → Respects (Kept (Standing id d)) (append_build_log b chunk)
  unfolding append_build_log statement
  append_build_log-Standing b chunk = record {
    at = λ w. Standing-same id d w (append_build_log b chunk w).1 (ground arith, ground arith);
  }

  start_build-Standing :
      (b : ℕ) (status : String) → Respects (Kept (Standing id d)) (start_build b status)
  unfolding start_build statement
  start_build-Standing b status = record {
    at = λ w. Standing-same id d w (start_build b status w).1 (ground arith, ground arith);
  }

  list_env_vars-Standing : (s : ℕ) → Respects (Kept (Standing id d)) (list_env_vars s)
  unfolding list_env_vars query
  list_env_vars-Standing s = record {
    at = λ w. Standing-same id d w (list_env_vars s w).1 (ground arith, ground arith);
  }

  build_args-Standing : (s : ℕ) → Respects (Kept (Standing id d)) (build_args s)
  unfolding build_args
  build_args-Standing s = search (respects_rules, Kept-IsPreorder, list_env_vars-Standing)

  write_chunks-Standing :
      (b : ℕ) (cs : List Text) → Respects (Kept (Standing id d)) (write_chunks b cs)
  unfolding write_chunks
  write_chunks-Standing b [] = search (respects_rules, Kept-IsPreorder)
  write_chunks-Standing b (c ∷ cs) =
      Respects-bind (Kept-IsPreorder _) (try (append_build_log b c)) _
        (search (respects_rules, append_build_log-Standing))
        λ r.
          Respects-bind (Kept-IsPreorder _) (write_chunks b cs) _ (write_chunks-Standing b cs)
            λ rs. Respects-pure (Kept-IsPreorder _) _

write_chunks-ok :
    (b : ℕ) (cs : List Text) (w : World)
    → (rs : List (Result Error Unit)) × ((write_chunks b cs w).0 ≡ ok rs)
unfolding write_chunks ◌>>=◌ try pure
write_chunks-ok b [] w = ([], refl)
write_chunks-ok b (c ∷ cs) w =
    let (r, w') = append_build_log b c w in
    let (rs, e) = write_chunks-ok b cs w' in (r ∷ rs, rw e refl)

-- Ready to deploy, or failed.
pub record Ended (id : ℕ) (w : World) : Type 0 where
  pub last : Deploy
  pub row : find (has_id id) w.deploys ≡ some last
  pub outcome : (last.status ≡ status_deploying) ⊎ (last.status ≡ status_failed)

settle-Ended :
    (id b : ℕ) (d : Deploy) (r : Result Text Text) (w : World)
    → d.status ≡ status_building
    → Standing id d w
    → Ended id (settle id b r w).1
unfolding settle ◌>>=◌ try is_terminal transitions
settle-Ended id b d (ok image) w s h = record {
  last = record d { status = status_deploying; image = image; updated_at = w.now };
  row = (ship-delivers id b image w d h.healthy h.row s).0;
  outcome = inl refl;
}
settle-Ended id b d (err why) w s h =
    let h' = (append_build_log-Standing id d b _).at w h in
    record {
      last = with_status status_failed _ d;
      row = fail-marks id b _ d h'.healthy h'.row (rw s refl);
      outcome = inr refl;
    }

written-Ended :
    (id b : ℕ) (d : Deploy) (cs : List Text) (f : List (Result Error Unit) → Result Text Text)
    (w : World)
    → d.status ≡ status_building
    → Standing id d w
    → Ended id ((write_chunks b cs >>= λ written. settle id b (f written)) w).1
unfolding ◌>>=◌
written-Ended id b d cs f w st h =
    let (rs, e) = write_chunks-ok b cs w in
    rw e (
      settle-Ended id b d (f rs) (write_chunks b cs w).1 st
        ((write_chunks-Standing id d b cs).at w h))

-- A keyed table has one row of an id at most.
none_below : (id n : ℕ) (ds : List Deploy) → Falling n ds → n ≤ id → select (claimable id) ds ≡ []
unfolding select
none_below id n [] f le = refl
none_below id n (d ∷ ds) f le =
    ground (arith, nat_beq_iff d.id id, none_below id d.id ds f.1 (omega (arith, f.0, le)))

one_claimable :
    (id n : ℕ) (ds : List Deploy) (d : Deploy)
    → Falling n ds
    → find (has_id id) ds ≡ some d
    → d.status ≡ status_queued
    → (length (select (claimable id) ds) ≡ 1) × (claimable id d ≡ true)
unfolding find select
one_claimable id n [] d f e q = absurd (ground arith)
one_claimable id n (x ∷ ds) d f e q = elim (Bool-cases (has_id id x)) [
  | inl hit ↦ ground (
    arith,
    hit,
    (eq_iff d.status status_queued).1 q,
    none_below id x.id ds f.1 (omega (arith, (nat_beq_iff x.id id).0 hit)),
  )
  | inr miss ↦ ground (arith, miss, one_claimable id x.id ds d f.1 (rest miss) q)
]
  where
    rest : has_id id x ≡ false → find (has_id id) ds ≡ some d
    rest miss = ground (arith, miss)

module _ (backend : Backend) (registry : Text) (id : ℕ) where
  run_build-Ended :
      (row d : Deploy) (s : Service) (b : Build) (w : World)
      → d.status ≡ status_building
      → Standing id d w
      → Ended id (run_build backend registry id row s b w).1
  unfolding run_build ◌>>=◌ build_args try pure
  run_build-Ended row d s b w st h =
      written-Ended id b.id d (backend.chunks request) (backend.outcome request)
        (list_env_vars s.id w).1 st ((list_env_vars-Standing id d s.id).at w h)
    where
      request : Request
      request = record {
        repo_url = s.repo_url;
        ref = row.commit_sha;
        image = image_of backend registry s.id id;
        type = s.type;
        build_args = args_of (list_env_vars s.id w).0;
      }

claim-row :
    (id : ℕ) (d : Deploy) (w : World)
    → Falling w.next_deploy w.deploys
    → Standing id d w
    → d.status ≡ status_queued
    → ((claim_queued_deploy id w).0 ≡ ok true)
      × Standing id (with_status status_building w.now d) (claim_queued_deploy id w).1
unfolding claim_queued_deploy statement
claim-row id d w f h q =
    let (one, hit) = one_claimable id w.next_deploy w.deploys d f h.row q in
    (
      ground (arith, h.healthy w.sent, one),
      record {
        healthy = λ n. rw (h.healthy w.sent) (h.healthy n);
        row = rw (h.healthy w.sent) (moved_row hit);
      },
    )
  where
    moved_row :
        claimable id d ≡ true
        → find (has_id id) (update (claimable id) (with_status status_building w.now) w.deploys)
          ≡ some (with_status status_building w.now d)
    moved_row hit =
        rw
          (
            find-update (has_id id) (claimable id) (with_status status_building w.now) w.deploys
                (λ x. refl),
            h.row,
            hit,
          )
          refl

start_build-ok :
    (id b : ℕ) (d : Deploy) (w : World)
    → Standing id d w
    → (start_build b build_running w).0 ≡ ok tt
unfolding start_build statement
start_build-ok id b d w h = ground (arith, h.healthy w.sent)

module _ (backend : Backend) (registry : Text) (id : ℕ) where
  build_claimed-Ended :
      (row d : Deploy) (s : Service) (b : Build) (w : World)
      → Falling w.next_deploy w.deploys
      → Standing id d w
      → d.status ≡ status_queued
      → Ended id (build_claimed backend registry id row s b w).1
  unfolding build_claimed ◌>>=◌ or_raise catch guard pure
  build_claimed-Ended row d s b w f h q =
      let (claimed, standing) = claim-row id d w f h q in
      let w1 = (claim_queued_deploy id w).1 in
      rw (claimed, start_build-ok id b.id (with_status status_building w.now d) w1 standing)
        (run_build-Ended backend registry id row (with_status status_building w.now d) s b _ refl (
          (start_build-Standing id (with_status status_building w.now d) b.id build_running).at w1
            standing))

  loaded :
      (w : World) (d : Deploy) (s : Service) (p : Project) (b : Build)
      → Healthy w
      → find (has_id id) w.deploys ≡ some d
      → find (λ (x : Service). x.id == d.service_id) w.services ≡ some s
      → find (λ (x : Project). x.id == s.project_id) w.projects ≡ some p
      → find (λ (x : Build). x.deploy_id == id) w.builds ≡ some b
      → process backend registry id w
        ≡ build_claimed backend registry id d s b (record w { sent = suc (suc (suc w.sent)) })
  unfolding process deploy_by_id service_by_id build_by_deploy_id query ◌>>=◌ or_raise catch
  loaded w d s p b h fd fs fp fb =
      rw (h w.sent, fd, h (suc w.sent), fs, fp, h (suc (suc w.sent)), fb) refl

-- If no request fails and ids fall along the table, a worker that is told of a queued deploy, whose
-- service, project and build exist, leaves it ready to deploy or failed, whatever the backend does.
pub process-Ended :
    (backend : Backend) (registry : Text) (id : ℕ) (w : World) (d : Deploy) (s : Service)
    (p : Project) (b : Build)
    → Healthy w
    → Falling w.next_deploy w.deploys
    → find (has_id id) w.deploys ≡ some d
    → d.status ≡ status_queued
    → find (λ (x : Service). x.id == d.service_id) w.services ≡ some s
    → find (λ (x : Project). x.id == s.project_id) w.projects ≡ some p
    → find (λ (x : Build). x.deploy_id == id) w.builds ≡ some b
    → Ended id (process backend registry id w).1
process-Ended backend registry id w d s p b h f fd q fs fp fb =
    rw (loaded backend registry id w d s p b h fd fs fp fb) (
      build_claimed-Ended backend registry id d d s b (record w { sent = suc (suc (suc w.sent)) }) f
        (record { healthy = h; row = fd }) q)
