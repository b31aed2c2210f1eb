-- ===== src/Api/Settings.antt =====
-- internal/api/settings_handlers.go.
pub mod Bounds
pub mod Rows
use uran_api.Prelude.{
  ℕ, ℤ, pos, String, Text, Bool, true, false, not, ◌&&◌, ◌||◌, Option, none, some, [],
  if◌then◌else◌, ◌==◌, string_eq, text_eq, lt_int,
}
use uran_api.Exec.{
  Exec, Result, ok, err, pure, raise, ◌>>=◌, ◌>>◌, catch, try, or_raise, guard, lift,
}
use uran_api.Go.Text.{codes}
use uran_api.Instance.{is_valid}
use uran_api.Store.{World, Error, Query}
use uran_api.Store.Models.{Service}
use uran_api.Store.Services.{
  set_service_scaling, set_service_health, set_service_disk, set_service_suspended,
}
use uran_api.Api.Access.{Request, Refusal, refusal, Handler, decoded, require_service_access}
use uran_api.Api.Deploys.{apply_service_change}

pub record Scale : Type 0 where
  pub replicas : ℤ
  pub instance_size : String
  pub min_replicas : ℤ
  pub max_replicas : ℤ

-- `if n < 1 { n = 1 }`
unfoldable pub at_least_one : ℤ → ℤ
at_least_one n = if lt_int n (pos 1) then pos 1 else n

-- What `handleScale` makes of the numbers and the size of a request before it stores them.
unfoldable pub checked_scale : Service → Scale → Result Refusal Scale
unfolding at_least_one
checked_scale svc q =
    let size = if q.instance_size == "" then svc.instance_size else q.instance_size in
    let low =
      if lt_int (pos 0) q.max_replicas then at_least_one q.min_replicas else q.min_replicas in
    if not (is_valid size)
    then err (refusal 400 (codes "invalid instance_size (small|medium|large|xlarge|2xlarge)"))
    else if lt_int (pos 0) q.max_replicas && lt_int q.max_replicas low
    then err (refusal 400 (codes "max_replicas must be >= min_replicas"))
    else ok (record {
      replicas = at_least_one q.replicas;
      instance_size = size;
      min_replicas = low;
      max_replicas = q.max_replicas;
    })

-- The end of each handler of the file.
unfoldable pub store_and_apply : ℕ → Query Unit → Text → Handler Unit
store_and_apply service_id m message = do
  or_raise m (refusal 500 message)
  try {F = Refusal} (apply_service_change service_id)
  pure tt

unfoldable pub handle_scale : Request → Text → Option Scale → Handler Unit
unfolding checked_scale store_and_apply
handle_scale r param body = do
  svc ← require_service_access r param
  req ← decoded body (codes "invalid body")
  q ← lift (checked_scale svc req)
  store_and_apply svc.id
      (set_service_scaling svc.id q.replicas q.instance_size q.min_replicas q.max_replicas)
      (codes "could not update scaling")

unfoldable pub handle_set_health : Request → Text → Option Text → Handler Unit
unfolding store_and_apply
handle_set_health r param body = do
  svc ← require_service_access r param
  path ← decoded body (codes "invalid body")
  store_and_apply svc.id (set_service_health svc.id path) (codes "could not update health check")

pub record Disk : Type 0 where
  pub size : Text
  pub path : Text

unfoldable pub handle_attach_disk : Request → Text → Option Disk → Handler Unit
unfolding store_and_apply
handle_attach_disk r param body = do
  svc ← require_service_access r param
  req ← decoded body (codes "size and path required")
  guard (not (req.size == [] || req.path == [])) (refusal 400 (codes "size and path required"))
  store_and_apply svc.id (set_service_disk svc.id req.size req.path) (codes "could not attach disk")

unfoldable pub handle_detach_disk : Request → Text → Handler Unit
unfolding store_and_apply
handle_detach_disk r param = do
  svc ← require_service_access r param
  store_and_apply svc.id (set_service_disk svc.id [] []) (codes "could not detach disk")

-- `handleSuspend` passes true, `handleResume` false.
unfoldable pub set_suspended : Request → Text → Bool → Handler Unit
unfolding store_and_apply
set_suspended r param suspended = do
  svc ← require_service_access r param
  store_and_apply svc.id (set_service_suspended svc.id suspended) (codes "could not update service")
