-- ===== src/Api/Members.antt =====
-- internal/api/member_handlers.go.
pub mod Owners
pub mod Guard
pub mod LastOwner
use uran_api.Prelude.{
  ℕ, String, Text, Bool, true, false, not, ◌&&◌, ◌||◌, Option, none, some, List, if◌then◌else◌,
  ◌==◌, string_eq, leb,
}
use uran_api.Exec.{
  Exec, Result, ok, err, pure, raise, lift, ◌>>=◌, ◌>>◌, catch, try, or_raise, guard,
}
use uran_api.Go.Text.{codes}
use uran_api.Go.Unicode.{Unicode, trim_space, lower}
use uran_api.Rbac.{member, admin, owner, at_least, is_valid}
use uran_api.Store.{World, Error}
use uran_api.Store.Models.{User, Membership}
use uran_api.Store.Members.{
  role_in_org, upsert_org_member, remove_org_member, count_org_owners, list_org_members,
  user_by_email,
}
use uran_api.Api.Access.{
  Request, Refusal, refusal, Handler, path_int, decoded, authorize_org, require_org_role,
}

unfoldable pub handle_list_members : Request → Text → Handler (List Membership)
handle_list_members r org_param = do
  org_id ← path_int org_param (codes "invalid org id")
  authorize_org r org_id
  or_raise (list_org_members org_id) (refusal 500 (codes "could not list members"))

unfoldable pub can_grant_role : String → String → Bool
can_grant_role caller_role target_role =
    not (at_least target_role admin && not (caller_role == owner))

-- The test of `applyRole` on the target's current role; a failed lookup passes.
unfoldable pub may_modify : Result Error String → String → Bool
may_modify (err e) caller_role = true
may_modify (ok current) caller_role = not (current == owner && not (caller_role == owner))

-- `owners <= 1`, where a failed count passes.
unfoldable pub enough_owners : Result Error ℕ → Bool
enough_owners (err e) = true
enough_owners (ok n) = not (leb n 1)

unfoldable pub is_demotion : Result Error String → String → Bool
is_demotion (err e) new_role = false
is_demotion (ok current) new_role = current == owner && not (new_role == owner)

unfoldable pub keep_an_owner : ℕ → Handler Unit
keep_an_owner org_id = do
  owners ← try (count_org_owners org_id)
  guard (enough_owners owners) (refusal 409 (codes "cannot remove or demote the last owner"))

-- An empty new role stands for removal.
unfoldable pub guard_last_owner : ℕ → ℕ → String → Handler Unit
unfolding keep_an_owner
guard_last_owner org_id user_id new_role = do
  current ← try (role_in_org user_id org_id)
  if is_demotion current new_role then keep_an_owner org_id else pure tt

unfoldable pub apply_role : ℕ → ℕ → String → String → Handler Unit
unfolding guard_last_owner
apply_role org_id user_id new_role caller_role = do
  guard (can_grant_role caller_role new_role)
      (refusal 403 (codes "only an owner can grant admin/owner"))
  current ← try (role_in_org user_id org_id)
  guard (may_modify current caller_role) (refusal 403 (codes "only an owner can modify an owner"))
  guard_last_owner org_id user_id new_role
  or_raise (upsert_org_member org_id user_id new_role)
      (refusal 500 (codes "could not update member role"))

pub record AddMember : Type 0 where
  pub email : Text
  pub role : String

module _ (u : Unicode) where
  unfoldable pub handle_add_member : Request → Text → Option AddMember → Handler Membership
  unfolding apply_role
  handle_add_member r org_param body = do
    org_id ← path_int org_param (codes "invalid org id")
    caller_role ← require_org_role r org_id admin
    req ← decoded body (codes "invalid body")
    let role = if req.role == "" then member else req.role
    user ←
        or_raise (user_by_email (lower u (trim_space u req.email)))
          (refusal 404 (codes "no user with that email"))
    apply_role org_id user.id role caller_role
    pure (record { org_id = org_id; user_id = user.id; role = role })

unfoldable pub handle_set_member_role : Request → Text → Text → Option String → Handler Unit
unfolding apply_role
handle_set_member_role r org_param user_param body = do
  org_id ← path_int org_param (codes "invalid org id")
  user_id ← path_int user_param (codes "invalid user id")
  caller_role ← require_org_role r org_id admin
  role ← decoded body (codes "valid role required")
  guard (is_valid role) (refusal 400 (codes "valid role required"))
  apply_role org_id user_id role caller_role

-- What `handleRemoveMember` does once the caller is known as an admin.
unfoldable pub remove_role : ℕ → ℕ → Handler Unit
unfolding guard_last_owner
remove_role org_id user_id = do
  guard_last_owner org_id user_id ""
  deleted ←
      or_raise (remove_org_member org_id user_id) (refusal 500 (codes "could not remove member"))
  guard deleted (refusal 404 (codes "member not found"))

unfoldable pub handle_remove_member : Request → Text → Text → Handler Unit
unfolding remove_role
handle_remove_member r org_param user_param = do
  org_id ← path_int org_param (codes "invalid org id")
  user_id ← path_int user_param (codes "invalid user id")
  require_org_role r org_id admin
  remove_role org_id user_id
