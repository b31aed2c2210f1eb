-- ===== src/Store/Rows.antt =====
-- What the statements on a deploy leave on its row, as long as no request fails.
use uran_api.Prelude.{
  ℕ, suc, String, Text, ◌≡◌, refl, true, some, List, ◌∷◌, arith, nat_eq, string_eq, find, update,
  find-update, find-holds,
}
use uran_api.Exec.{ok, ◌>>=◌, guard, pure, raise}
use uran_api.Deploy.{can_transition}
use uran_api.Store.{World, Healthy, statement, query, notify, deployment_channel}
use uran_api.Store.Models.{Deploy}
use uran_api.Store.Deploys.{
  has_id, with_status, deploy_by_id, set_status, update_deploy_status, set_deploy_image,
  finish_build,
}

pub find-same :
    (id : ℕ) (f : Deploy → Deploy) (ds : List Deploy) (d : Deploy)
    → ((x : Deploy) → (f x).id ≡ x.id)
    → find (has_id id) ds ≡ some d
    → find (has_id id) (update (has_id id) f ds) ≡ some (f d)
find-same id f ds d same h =
    rw
      (
        find-update (has_id id) (has_id id) f ds (λ x. rw (same x) refl),
        h,
        find-holds (has_id id) ds d h,
      )
      refl

abbrev pub with_image : Text → ℕ → Deploy → Deploy
with_image image now d = record d { image = image; updated_at = now }

pub set_deploy_image-row :
    (id : ℕ) (image : Text) (w : World) (d : Deploy)
    → Healthy w
    → find (has_id id) w.deploys ≡ some d
    → ((set_deploy_image id image w).0 ≡ ok tt)
      × (find (has_id id) (set_deploy_image id image w).1.deploys ≡ some (with_image image w.now d))
      × ((set_deploy_image id image w).1.down ≡ w.down)
      × ((set_deploy_image id image w).1.now ≡ w.now)
      × ((set_deploy_image id image w).1.notes ≡ w.notes)
unfolding set_deploy_image statement
set_deploy_image-row id image w d h f =
    ground (arith, h w.sent, find-same id (with_image image w.now) w.deploys d (λ x. refl) f)

pub finish_build-row :
    (id : ℕ) (status : String) (w : World)
    → ((finish_build id status w).1.deploys ≡ w.deploys)
      × ((finish_build id status w).1.down ≡ w.down)
      × ((finish_build id status w).1.now ≡ w.now)
      × ((finish_build id status w).1.notes ≡ w.notes)
unfolding finish_build statement
finish_build-row id status w = ground arith

pub update_deploy_status-row :
    (id : ℕ) (to : String) (w : World) (d : Deploy)
    → Healthy w
    → find (has_id id) w.deploys ≡ some d
    → can_transition d.status to ≡ true
    → ((update_deploy_status id to w).0 ≡ ok (with_status to w.now d))
      × (find (has_id id) (update_deploy_status id to w).1.deploys ≡ some (with_status to w.now d))
      × ((update_deploy_status id to w).1.down ≡ w.down)
      × ((update_deploy_status id to w).1.notes ≡ w.notes)
unfolding update_deploy_status deploy_by_id set_status statement query ◌>>=◌ guard pure raise
update_deploy_status-row id to w d h f c =
    ground (
      arith,
      h w.sent,
      h (suc w.sent),
      find-same id (with_status to w.now) w.deploys d (λ x. refl) f,
    )

pub notify-row :
    (w : World) (p : Text)
    → Healthy w
    → ((notify deployment_channel p w).1.db ≡ w.db)
      × ((notify deployment_channel p w).1.notes
          ≡ record { channel = deployment_channel; payload = p } ∷ w.notes)
unfolding notify
notify-row w p h = ground (arith, h w.sent)
