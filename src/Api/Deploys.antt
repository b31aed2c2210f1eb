-- ===== src/Api/Deploys.antt =====
-- internal/api/deploy_handlers.go, `handleRollback` of env_handlers.go and `applyServiceChange` of
-- settings_handlers.go.
pub mod Redeploy
use uran_api.Prelude.{
  ℕ, ℤ, String, Text, Option, none, some, List, [], ◌∷◌, ◌++◌, if◌then◌else◌, ◌==◌, text_eq, not,
}
use uran_api.Exec.{Exec, Result, ok, err, pure, raise, ◌>>=◌, ◌>>◌, catch, try, or_raise, guard}
use uran_api.Go.Text.{codes}
use uran_api.Go.Decimal.{format_nat}
use uran_api.Go.Unicode.{Unicode, trim_space}
use uran_api.Store.{World, Error, Query, deploy_channel, deployment_channel, notify}
use uran_api.Store.Models.{Deploy, Service}
use uran_api.Store.Deploys.{
  create_deploy, create_preview_deploy, create_imaged_deploy, list_deploys, latest_imaged_deploy,
}
use uran_api.Api.Access.{
  Request, Refusal, refusal, Handler, decoded, require_service_access, require_deploy_access,
}

unfoldable pub create_rollback_deploy : ℕ → Text → Text → ℕ → Query Deploy
create_rollback_deploy service_id image commit_sha from_deploy_id =
    create_imaged_deploy service_id image commit_sha (
      codes "rolled back: reused image "
      ++ (image ++ (codes " from deploy " ++ (format_nat from_deploy_id ++ codes "\n"))))

unfoldable pub create_image_deploy : ℕ → Text → Query Deploy
create_image_deploy service_id image =
    create_imaged_deploy service_id image []
      (codes "deployed prebuilt image " ++ (image ++ codes "\n"))

-- The notification is best effort.
unfoldable pub enqueue_deploy : ℕ → Text → Query Deploy
enqueue_deploy service_id commit_sha = do
  d ← create_deploy service_id commit_sha
  try {F = Error} (notify deploy_channel (format_nat d.id))
  pure d

unfoldable pub enqueue_preview : ℕ → Text → ℤ → Query Deploy
enqueue_preview service_id commit_sha pr_number = do
  d ← create_preview_deploy service_id commit_sha pr_number
  try {F = Error} (notify deploy_channel (format_nat d.id))
  pure d

-- The body is optional: `commit_sha` is empty without one.
unfoldable pub handle_create_deploy : Request → Text → Text → Handler Deploy
unfolding enqueue_deploy
handle_create_deploy r param commit_sha = do
  svc ← require_service_access r param
  or_raise (enqueue_deploy svc.id commit_sha) (refusal 500 (codes "could not create deploy"))

-- A deploy that is ready to go live is announced to the controller.
unfoldable pub announce : Deploy → Handler Deploy
announce d = do try {F = Refusal} (notify deployment_channel (format_nat d.id)); pure d

module _ (u : Unicode) where
  unfoldable pub handle_image_deploy : Request → Text → Option Text → Handler Deploy
  unfolding create_image_deploy announce
  handle_image_deploy r param body = do
    svc ← require_service_access r param
    image ← decoded body (codes "image required")
    guard (not (trim_space u image == [])) (refusal 400 (codes "image required"))
    d ←
        or_raise (create_image_deploy svc.id (trim_space u image))
          (refusal 500 (codes "could not create deploy"))
    announce d

unfoldable pub handle_list_deploys : Request → Text → Handler (List Deploy)
handle_list_deploys r param = do
  svc ← require_service_access r param
  or_raise (list_deploys svc.id) (refusal 500 (codes "could not list deploys"))

unfoldable pub handle_get_deploy : Request → Text → Handler Deploy
handle_get_deploy r param = require_deploy_access r param

unfoldable pub handle_rollback : Request → Text → Handler Deploy
unfolding create_rollback_deploy announce
handle_rollback r param = do
  d ← require_deploy_access r param
  guard (not (d.image == [])) (refusal 409 (codes "deploy has no built image to roll back to"))
  nd ←
      or_raise (create_rollback_deploy d.service_id d.image d.commit_sha d.id)
        (refusal 500 (codes "could not create rollback deploy"))
  announce nd

-- The answer of the request does not depend on how this goes: its errors are logged.
unfoldable pub apply_service_change : ℕ → Query Unit
unfolding create_rollback_deploy
apply_service_change service_id = do
  last ← latest_imaged_deploy service_id
  nd ← create_rollback_deploy service_id last.image last.commit_sha last.id
  notify deployment_channel (format_nat nd.id)
