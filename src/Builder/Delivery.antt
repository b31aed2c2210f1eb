-- ===== src/Builder/Delivery.antt =====
-- What the end of a build leaves on the deploy's row.
use uran_api.Prelude.{ℕ, Text, ◌≡◌, refl, false, some, ◌∷◌, nat_eq, string_eq, find}
use uran_api.Exec.{◌>>=◌, try, catch, or_raise, pure}
use uran_api.Go.Decimal.{format_nat}
use uran_api.Deploy.{
  build_succeeded, build_failed, is_terminal, status_building, status_deploying, status_failed,
  can_transition,
}
use uran_api.Deploy.Lifecycle.{failed_reachable}
use uran_api.Store.{World, Healthy, deployment_channel}
use uran_api.Store.Models.{Deploy}
use uran_api.Store.Deploys.{
  has_id, with_status, update_deploy_status, set_deploy_image, finish_build,
}
use uran_api.Store.Rows.{
  set_deploy_image-row, finish_build-row, update_deploy_status-row, notify-row, with_image,
}
use uran_api.Builder.{fail, ship}

-- If no request fails, a build that produced an image leaves its deploy, if that was building, ready
-- to deploy with the image, and tells the controller of it.
pub ship-delivers :
    (id build_id : ℕ) (image : Text) (w : World) (d : Deploy)
    → Healthy w
    → find (has_id id) w.deploys ≡ some d
    → d.status ≡ status_building
    → (find (has_id id) (ship id build_id image w).1.deploys
        ≡ some (record d { status = status_deploying; image = image; updated_at = w.now }))
      × ((ship id build_id image w).1.notes
          ≡ record { channel = deployment_channel; payload = format_nat id } ∷ w.notes)
unfolding ship ◌>>=◌ try or_raise catch pure can_transition
ship-delivers id build_id image w d h f s =
    let stored = set_deploy_image-row id image w d h f in
    let w1 = (set_deploy_image id image w).1 in
    let ended = finish_build-row build_id build_succeeded w1 in
    let w2 = (finish_build build_id build_succeeded w1).1 in
    let moved =
      update_deploy_status-row id status_deploying w2 (with_image image w.now d)
        (λ n. rw (ended.1, stored.2) (h n)) (rw ended.0 stored.1) (rw s refl) in
    let w3 = (update_deploy_status id status_deploying w2).1 in
    let told = notify-row w3 (format_nat id) (λ n. rw (moved.2, ended.1, stored.2) (h n)) in
    rw (stored.0, moved.0)
      (cc (told.0, moved.1, ended.2, stored.3), cc (told.1, moved.3, ended.3, stored.4))

-- If no request fails, a failed build leaves its deploy failed, unless that was in a terminal status
-- already.
pub fail-marks :
    (id build_id : ℕ) (w : World) (d : Deploy)
    → Healthy w
    → find (has_id id) w.deploys ≡ some d
    → is_terminal d.status ≡ false
    → find (has_id id) (fail id build_id w).1.deploys ≡ some (with_status status_failed w.now d)
unfolding fail ◌>>=◌ try pure
fail-marks id build_id w d h f open_ =
    let ended = finish_build-row build_id build_failed w in
    let moved =
      update_deploy_status-row id status_failed (finish_build build_id build_failed w).1 d
        (λ n. rw ended.1 (h n)) (rw ended.0 f) (failed_reachable d.status open_) in
    cc (moved.1, ended.2)
