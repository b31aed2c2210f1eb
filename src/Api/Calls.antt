-- ===== src/Api/Calls.antt =====
-- internal/api: a request as its handler sees it, by its route and its body.
use uran_api.Prelude.{String, Text, Option, none, some, List}
use uran_api.Go.Json.{Json}
use uran_api.Api.Accounts.{Register, Login}
use uran_api.Api.Attachments.{SetEnv, AddRegistry}
use uran_api.Api.Databases.{CreateDatabase, ScaleDatabase}
use uran_api.Api.Members.{AddMember}
use uran_api.Api.Resources.{CreateService}
use uran_api.Api.Settings.{Scale, Disk}
use uran_api.Api.Bodies.{
  read_text, read_word, read_commit, read_register, read_login, read_service, read_env,
  read_registry, read_member, read_scale, read_disk, read_database, read_database_scale,
}
use uran_api.Api.Routes
use uran_api.Api.Routes.{Target, Mux, routes}

-- What a handler reads from the body; `none` where it refuses it.
pub data Body : Type 0 where
  nothing : Body
  commit : Text → Body
  one_text : Option Text → Body
  one_word : Option String → Body
  register : Option Register → Body
  login : Option Login → Body
  service : Option CreateService → Body
  env : Option SetEnv → Body
  registry : Option AddRegistry → Body
  member : Option AddMember → Body
  scale : Option Scale → Body
  disk : Option Disk → Body
  database : Option CreateDatabase → Body
  database_scale : Option ScaleDatabase → Body

unfoldable pub read_body : Target → Option Json → Body
read_body Routes.register j = register (read_register j)
read_body Routes.login j = login (read_login j)
read_body Routes.create_token j = one_text (read_text "name" j)
read_body Routes.create_org j = one_text (read_text "name" j)
read_body Routes.update_org j = one_text (read_text "name" j)
read_body Routes.create_project j = one_text (read_text "name" j)
read_body Routes.update_project j = one_text (read_text "name" j)
read_body Routes.add_registry_cred j = registry (read_registry j)
read_body Routes.github_connect j = one_text (read_text "code" j)
read_body Routes.add_member j = member (read_member j)
read_body Routes.set_member_role j = one_word (read_word "role" j)
read_body Routes.create_service j = service (read_service j)
read_body Routes.create_deploy j = commit (read_commit j)
read_body Routes.image_deploy j = one_text (read_text "image" j)
read_body Routes.set_env j = env (read_env j)
read_body Routes.add_domain j = one_text (read_text "domain" j)
read_body Routes.scale j = scale (read_scale j)
read_body Routes.set_health j = one_text (read_text "path" j)
read_body Routes.attach_disk j = disk (read_disk j)
read_body Routes.create_database j = database (read_database j)
read_body Routes.scale_database j = database_scale (read_database_scale j)
read_body _ j = nothing

pub record Call : Type 0 where
  pub target : Target
  pub params : List Text
  pub body : Body

abbrev taken : Option Json → Option (Target × List Text) → Option Call
taken body none = none
taken body (some (target, params)) =
    some (record { target = target; params = params; body = read_body target body })

-- The handler's call for a request, if there is one.
unfoldable pub call_of : Mux → String → Text → Option Json → Option Call
unfolding read_body
call_of mux method path body = taken body (mux routes method path)
