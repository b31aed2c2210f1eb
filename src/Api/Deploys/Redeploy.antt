-- ===== src/Api/Deploys/Redeploy.antt =====
-- Which image a change of settings brings to production.
use uran_api.Prelude.{
  ℕ, suc, ◌≡◌, Bool, true, not, ◌&&◌, none, some, [], ◌∷◌, arith, ◌==◌, nat_eq, string_eq, text_eq,
  find,
}
use uran_api.Exec.{◌>>=◌}
use uran_api.Deploy.{status_deploying, kind_production}
use uran_api.Store.{World, Healthy, statement, query, notify}
use uran_api.Store.Models.{Deploy}
use uran_api.Store.Deploys.{
  service_exists, create_imaged_deploy, insert_deploy, new_deploy, latest_imaged_deploy,
}
use uran_api.Api.Deploys.{apply_service_change, create_rollback_deploy}

abbrev pub is_imaged : ℕ → Deploy → Bool
is_imaged service_id d = d.service_id == service_id && not (d.image == [])

-- A change of a service's settings deploys the image of the newest deploy of the service that has
-- one, a preview or not, as a new production deploy, if the service exists and no request fails.
pub apply_service_change-image :
    (service_id : ℕ) (last : Deploy) (w : World)
    → Healthy w
    → service_exists service_id w.db ≡ true
    → find (is_imaged service_id) w.deploys ≡ some last
    → (apply_service_change service_id w).1.deploys
      ≡ new_deploy w.db service_id status_deploying last.commit_sha last.image kind_production none
        ∷ w.deploys
unfolding apply_service_change create_rollback_deploy create_imaged_deploy insert_deploy new_deploy
    latest_imaged_deploy statement query notify ◌>>=◌
apply_service_change-image service_id last w h e f =
    ground (arith, h w.sent, h (suc w.sent), h (suc (suc w.sent)))
