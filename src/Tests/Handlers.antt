-- ===== src/Tests/Handlers.antt =====
-- The handlers at concrete inputs.
use uran_api.Prelude.{
  pos, negsuc, string_eq, text_beq, find, select, any, String, true, false, none, some, [], ◌∷◌,
  ◌≡◌, refl, ◌⊎◌, arith,
}
use uran_api.Exec.{ok, ◌>>=◌, or_raise, catch, guard, lift, try, pure, raise}
use uran_api.Go.Text.{codes}
use uran_api.Deploy.{status_deploying, status_live, kind_production}
use uran_api.Rbac.{owner, viewer, rank, at_least, can_write}
use uran_api.Instance
use uran_api.Store.{World, query, statement}
use uran_api.Store.Members.{role_of, is_member, role_in_org}
use uran_api.Store.Deploys.{new_deploy, service_by_id}
use uran_api.Api.Access.{
  Request as HttpRequest, is_mutation, authorize_org, require_service_access, path_int, to_row,
  decoded,
}
use uran_api.Go.Decimal.{parse_int, parse_digits, scan, scan_digit}
use uran_api.Store.Services.{set_service_scaling, update_service}
use uran_api.Api.Access.Roles.{IsRead, IsWriter, authorize_org_sound}
use uran_api.Api.Databases.{CreateDatabase}
use uran_api.Api.Deploys.{apply_service_change}
use uran_api.Api.Deploys.Redeploy.{apply_service_change-image}
use uran_api.Api.Members.{handle_remove_member, handle_set_member_role}
use uran_api.Api.Members.LastOwner.{Owned, handle_remove_member-Owned, handle_set_member_role-Owned}
use uran_api.Api.Settings.{Scale, checked_scale, at_least_one, store_and_apply, handle_scale}
use uran_api.Api.Settings.Bounds.{Stored, handle_scale-Stored}
use uran_api.Tests.World.{svc, row, world_of, start}

start-Owned : Owned 3 start
unfolding select
start-Owned = record { healthy = λ n. refl; unique = (tt, tt); owned = omega arith }

abbrev request : HttpRequest
request = record { user_id = 7; method = "DELETE" }

handle_remove_member-Owned_example :
    Owned 3 (handle_remove_member request (codes "3") (codes "7") start).1
handle_remove_member-Owned_example =
    handle_remove_member-Owned 3 request (codes "3") (codes "7") start start-Owned

handle_set_member_role-Owned_example :
    Owned 3 (handle_set_member_role request (codes "3") (codes "7") (some viewer) start).1
handle_set_member_role-Owned_example =
    handle_set_member_role-Owned 3 request (codes "3") (codes "7") (some viewer) start start-Owned

authorize_org_sound_example :
    (role_of (find (is_member 3 7) start.members) ≡ ok owner) × (IsRead "DELETE" ⊎ IsWriter owner)
unfolding authorize_org role_in_org query ◌>>=◌ or_raise catch guard pure raise find is_mutation
    can_write at_least rank
authorize_org_sound_example = authorize_org_sound request 3 start owner refl

abbrev asked : Scale
asked = record {
  replicas = negsuc 3;
  instance_size = "";
  min_replicas = pos 0;
  max_replicas = pos 4;
}

let_in : (require_service_access request (codes "1") start).0 ≡ ok svc
unfolding require_service_access path_int to_row parse_int parse_digits scan scan_digit
    service_by_id authorize_org role_in_org query ◌>>=◌ or_raise catch guard lift pure raise find
    is_mutation can_write at_least rank
let_in = refl

scaled_well : (handle_scale request (codes "1") (some asked) start).0 ≡ ok tt
unfolding handle_scale require_service_access path_int to_row parse_int parse_digits scan scan_digit
    service_by_id authorize_org role_in_org query ◌>>=◌ or_raise catch guard lift pure raise find
    is_mutation can_write at_least rank decoded checked_scale at_least_one Instance.is_valid
    Instance.sizes store_and_apply set_service_scaling update_service statement try
scaled_well = refl

handle_scale-Stored_example :
    Stored svc asked (handle_scale request (codes "1") (some asked) start).1.services
handle_scale-Stored_example =
    handle_scale-Stored request (codes "1") asked start svc let_in scaled_well

abbrev wanted : CreateDatabase
wanted = record {
  name = codes "Main";
  engine = "postgres";
  tier = "autoscale";
  instances = pos 0;
  min_instances = pos 0;
  max_instances = pos 3;
  size = "";
  storage = [];
  pooling = false;
  backups = true;
}

abbrev engine_name : String
engine_name = "postgres"

abbrev tier_name : String
tier_name = "autoscale"

-- The newest image is a preview's.
abbrev previewed : World
previewed = world_of (
    record (row 2 status_live (codes "pr")) { kind = "preview"; pr_number = some (pos 5) }
    ∷ row 1 status_live (codes "main")
    ∷ [])

apply_service_change-image_example :
    (apply_service_change 1 previewed).1.deploys
    ≡ new_deploy previewed.db 1 status_deploying (codes "abc") (codes "pr") kind_production none
      ∷ previewed.deploys
unfolding find any text_beq
apply_service_change-image_example =
    apply_service_change-image 1
      (record (row 2 status_live (codes "pr")) { kind = "preview"; pr_number = some (pos 5) })
      previewed (λ n. refl) refl refl
