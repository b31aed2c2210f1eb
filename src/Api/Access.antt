-- ===== src/Api/Access.antt =====
-- internal/api/rbac_access.go, server.go and the lookups of deploy_handlers.go, resource_handlers.go
-- and database_handlers.go that resolve a path parameter and check the caller's role. A handler ends
-- with the body of its answer, or with an error that `writeError` sends. A request has passed the
-- authentication: `user_id` is its user.
pub mod Roles
use uran_api.Prelude.{
  ℕ, ℤ, pos, negsuc, String, Text, Bool, true, false, not, ◌&&◌, ◌||◌, Option, none, some, ◌++◌,
  if◌then◌else◌, ◌==◌, string_eq,
}
use uran_api.Exec.{Exec, pure, raise, lift, Result, ok, err, ◌>>=◌, ◌>>◌, catch, or_raise, guard}
use uran_api.Go.Text.{codes}
use uran_api.Go.Decimal.{parse_int}
use uran_api.Rbac.{can_write, at_least}
use uran_api.Store.{World, Error, Query}
use uran_api.Store.Models.{Project, Service, Deploy, Database}
use uran_api.Store.Members.{role_in_org}
use uran_api.Store.Tenants.{project_by_id}
use uran_api.Store.Deploys.{deploy_by_id, service_by_id}
use uran_api.Store.Databases.{database_by_id}

pub record Request : Type 0 where
  pub user_id : ℕ
  pub method : String

-- The status and the message of an error answer.
pub record Refusal : Type 0 where
  pub status : ℕ
  pub message : Text

abbrev pub Handler : Type 0 → Type 0
Handler A = Exec World Refusal A

abbrev pub refusal : ℕ → Text → Refusal
refusal status message = record { status = status; message = message }

unfoldable pub is_mutation : String → Bool
is_mutation method = not (method == "GET" || (method == "HEAD" || method == "OPTIONS"))

-- No row has a negative id or the id 0.
unfoldable pub to_row : Text → Option ℤ → Result Refusal ℕ
to_row message none = err (refusal 400 message)
to_row message (some (pos n)) = ok n
to_row message (some (negsuc n)) = ok 0

-- `pathInt` and the answer where it fails.
unfoldable pub path_int : Text → Text → Handler ℕ
unfolding to_row
path_int param message = lift (to_row message (parse_int param))

-- `readJSON`, of a body that does not decode.
unfoldable pub decoded : {A : Type 0} → Option A → Text → Handler A
decoded none message = raise (refusal 400 message)
decoded (some a) message = pure a

unfoldable pub authorize_org : Request → ℕ → Handler String
authorize_org r org_id = do
  role ← or_raise (role_in_org r.user_id org_id) (refusal 403 (codes "not a member of this org"))
  guard (not (is_mutation r.method && not (can_write role)))
      (refusal 403 (codes "read-only access (viewer role)"))
  pure role

unfoldable pub require_org_role : Request → ℕ → String → Handler String
require_org_role r org_id min = do
  role ← or_raise (role_in_org r.user_id org_id) (refusal 403 (codes "not a member of this org"))
  guard (at_least role min) (refusal 403 (codes "requires " ++ (codes min ++ codes " role")))
  pure role

unfoldable pub require_org_member : Request → Text → Handler ℕ
unfolding path_int
require_org_member r param = do
  org_id ← path_int param (codes "invalid org id")
  authorize_org r org_id
  pure org_id

unfoldable pub require_project_access : Request → Text → Handler ℕ
unfolding path_int
require_project_access r param = do
  project_id ← path_int param (codes "invalid project id")
  p ← or_raise (project_by_id project_id) (refusal 404 (codes "project not found"))
  authorize_org r p.org_id
  pure project_id

unfoldable pub require_service_access : Request → Text → Handler Service
unfolding path_int
require_service_access r param = do
  id ← path_int param (codes "invalid service id")
  s ← or_raise (service_by_id id) (refusal 404 (codes "service not found"))
  authorize_org r s.1
  pure s.0

unfoldable pub require_deploy_access : Request → Text → Handler Deploy
unfolding path_int
require_deploy_access r param = do
  id ← path_int param (codes "invalid deploy id")
  d ← or_raise (deploy_by_id id) (refusal 404 (codes "deploy not found"))
  s ← or_raise (service_by_id d.service_id) (refusal 404 (codes "deploy not found"))
  authorize_org r s.1
  pure d

unfoldable pub require_database_access : Request → Text → Handler (Database × ℕ)
unfolding path_int
require_database_access r param = do
  id ← path_int param (codes "invalid database id")
  d ← or_raise (database_by_id id) (refusal 404 (codes "database not found"))
  authorize_org r d.1
  pure d
