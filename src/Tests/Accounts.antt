-- ===== src/Tests/Accounts.antt =====
-- Accounts and the configuration at concrete inputs. Of the hashes only that a password is accepted
-- for its own hash matters here: both are the identity.
use uran_api.Prelude.{
  ℤ, Text, true, false, some, [], ◌∷◌, ◌≡◌, ◌≢◌, ◌⊎◌, refl, text_eq, text_beq, ◌==◌, text_eq,
  if◌then◌else◌, find, any, arith,
}
use uran_api.Exec.{Result, ok, err, ◌>>=◌, guard, or_raise}
use uran_api.Go.Text.{byte_length, codes, has_prefix}
use uran_api.Go.Unicode.{trim_space, lower}
use uran_api.Store.{World, query, statement}
use uran_api.Store.Models.{User}
use uran_api.Store.Accounts.{create_user, create_session, user_by_session}
use uran_api.Auth.{api_token_prefix, bearer_token, middleware, unauthorized}
use uran_api.Auth.Tokens.{SessionOf, TokenOf, middleware_sound}
use uran_api.Api.Access.{decoded, Request, Handler}
use uran_api.Api.Reports.{AuditPage, handle_list_audit}
use uran_api.Api.Router.{TurnedAway, Admitted, authenticated-cases}
use uran_api.Api.Accounts.{Register, normal_email, handle_register, handle_login, handle_logout}
use uran_api.Api.Accounts.Sessions.{
  Welcome, Fresh, at_time, handle_register-middleware, handle_login-handle_register,
}
use uran_api.Api.Accounts.Logout.{handle_logout-middleware}
use uran_api.Config.{load_api, load_builder, load_controller}
use uran_api.Config.Problems.{
  reported, problems, api_variables, builder_variables, controller_variables, api_config,
  builder_config, controller_config, loaders_report,
}
use uran_api.Tests.World.{start, ascii}

abbrev ada : Register
ada = record { email = codes " Ada@B"; password = codes "longenough"; name = codes "Ada" }

ada-Welcome : Welcome ascii (λ p. some p) ada.password ada start
unfolding byte_length normal_email any text_beq trim_space lower
ada-Welcome = record {
  healthy = λ n. refl;
  email = refl;
  password = refl;
  hashed = refl;
  free = refl;
}

abbrev digits : Text
digits = codes "0af"

digits-Fresh : Fresh digits start
unfolding any text_beq
digits-Fresh = record { hex = (refl, (refl, (refl, tt))); some_digits = refl; unused = refl }

abbrev ada_row : User
ada_row = record {
  id = 8;
  email = codes "ada@b";
  password_hash = codes "longenough";
  name = codes "Ada";
}

abbrev joined : World
joined = (handle_register ascii (λ p. some p) (some digits) 60 (some ada) start).1

handle_register-middleware_example :
    ((handle_register ascii (λ p. some p) (some digits) 60 (some ada) start).0
      ≡ ok (record { token = digits; user = ada_row }))
    × ((middleware ascii (λ t. t) (codes "Bearer 0af") (at_time 10 joined)).0 ≡ ok ada_row)
unfolding normal_email trim_space lower
handle_register-middleware_example =
    handle_register-middleware ascii (λ p. some p) (λ t. t) digits ada.password 60 10 ada start
      ada-Welcome digits-Fresh (omega arith)

handle_login-handle_register_example :
    (handle_login ascii
      (λ h p. text_beq h p)
      (some (codes "1b"))
      60
      (some (record { email = codes "ADA@b "; password = codes "longenough" }))
      joined).0
    ≡ ok (record { token = codes "1b"; user = ada_row })
unfolding byte_length normal_email trim_space lower text_beq handle_register any ◌>>=◌ decoded guard
    or_raise create_user statement create_session
handle_login-handle_register_example =
    handle_login-handle_register ascii (λ p. some p) (λ h p. text_beq h p) (codes "1b") digits
      ada.password (codes "ADA@b ") 60 ada start ada-Welcome digits-Fresh refl refl refl

abbrev owner_row : User
owner_row = record { id = 7; email = codes "a@b"; password_hash = codes "h"; name = codes "A" }

abbrev signed_in : World
signed_in = record start {
  db = record start.db { sessions = record { token = digits; user_id = 7; expires_at = 60 } ∷ [] };
}

signed_in-passes : (middleware ascii (λ t. t) (codes "Bearer 0af") signed_in).0 ≡ ok owner_row
unfolding middleware text_beq or_raise has_prefix user_by_session query find
signed_in-passes = refl

middleware_sound_example :
    let token = bearer_token ascii (λ t. t) (codes "Bearer 0af") in
    (token ≢ [])
    × (((has_prefix api_token_prefix token ≡ false) × SessionOf signed_in.db token owner_row)
        ⊎ ((has_prefix api_token_prefix token ≡ true) × TokenOf signed_in.db token owner_row))
middleware_sound_example =
    middleware_sound ascii (λ t. t) signed_in owner_row (codes "Bearer 0af") signed_in-passes

handle_logout-middleware_example :
    let token = bearer_token ascii (λ t. t) in
    (middleware ascii
      (λ t. t)
      (codes "Bearer 0af ")
      (at_time 9 (handle_logout ascii (codes "Bearer 0af") signed_in).1)).0
    ≡ (if token (codes "Bearer 0af ") == token (codes "Bearer 0af")
        then err unauthorized
        else (middleware ascii (λ t. t) (codes "Bearer 0af ") (at_time 9 signed_in)).0)
unfolding bearer_token text_beq has_prefix
handle_logout-middleware_example =
    handle_logout-middleware ascii (λ t. t) (codes "Bearer 0af") (codes "Bearer 0af ") 9 signed_in
      (λ n. refl) refl refl

abbrev no_duration : Text → Result Text ℤ
no_duration v = err (codes "no duration")

-- Every variable is "x".
abbrev environment : Text → Text
environment name = codes "x"

loaders_report_example :
    ((load_api ascii environment no_duration []).0
      ≡ reported
          (api_config ascii environment no_duration)
          (problems ascii environment no_duration (api_variables ascii environment no_duration)))
    × ((load_builder ascii environment []).0
        ≡ reported (builder_config ascii environment no_duration) (
            problems ascii environment no_duration
              (builder_variables ascii environment no_duration)))
    × ((load_controller ascii environment []).0
        ≡ reported (controller_config ascii environment no_duration) (
            problems ascii environment no_duration
              (controller_variables ascii environment no_duration)))
loaders_report_example = loaders_report ascii environment no_duration

-- The audit log of the user who is signed in.
abbrev own_log : Request → Handler AuditPage
own_log r = handle_list_audit (λ value pattern. true) r [] "" [] []

authenticated-cases_example :
    TurnedAway ascii (λ t. t) (codes "Bearer 0af") "GET" (codes "/v1/audit") 200 own_log signed_in
    ⊎ Admitted ascii (λ t. t) (codes "Bearer 0af") "GET" (codes "/v1/audit") 200 own_log signed_in
authenticated-cases_example =
    authenticated-cases ascii (λ t. t) (codes "Bearer 0af") "GET" (codes "/v1/audit") 200 own_log
      signed_in
