-- ===== src/Tests/Client.antt =====
-- The command line client at concrete inputs.
use uran_api.Prelude.{
  ◌≡◌, refl, ℕ, pos, Text, Option, none, some, List, [], ◌∷◌, nat_eq, text_eq, string_eq, text_beq,
  All, arith, inl, find,
}
use uran_api.Exec.{ok, err, ◌>>=◌, or_raise, catch, lift, pure, raise, guard}
use uran_api.Go.Text.{codes, split, byte_length}
use uran_api.Go.Decimal.{format_nat, parse_int, parse_digits, scan, scan_digit}
use uran_api.Go.Http.{Response}
use uran_api.Go.Json.{Json, in_int32}
use uran_api.Deploy.{build_succeeded}
use uran_api.Rbac.{at_least, rank, can_write}
use uran_api.Store.Deploys.{service_by_id, deploy_by_id}
use uran_api.Store.Members.{role_in_org}
use uran_api.Store.{query}
use uran_api.Api.Access.{
  Request, Refusal, is_mutation, authorize_org, path_int, to_row, require_deploy_access,
}
use uran_api.Api.Logs.{handle_deploy_logs, stream_logs}
use uran_api.Api.Reports.{AuditPage}
use uran_api.Api.Responses.{write_error, write_json, audit_page_json}
use uran_api.Api.Routes.{Mux, Finds, Target, fitting}
use uran_api.Client.{Client, Credentials, Terminal, ask, refused, undecodable}
use uran_api.Client.Agreement.{run-Reached}
use uran_api.Client.Commands.{run, set_scale}
use uran_api.Client.Errors.{ask-write_error, cmd_audit-undecodable}
use uran_api.Client.Logs.{stream_build_logs, drop_cr}
use uran_api.Client.Meaning.{meaning}
use uran_api.Client.Orgs.{cmd_audit}
use uran_api.Client.Reaches.{Reached}
use uran_api.Client.Streams.{IsBatch, watched, stream_build_logs-handle_deploy_logs}
use uran_api.Tests.World.{ascii, build_row, start}

abbrev first : List (Target × List Text) → Option (Target × List Text)
first [] = none
first (f ∷ fs) = some f

-- Of the routes that fit, the first.
abbrev first_fit : Mux
first_fit rs method path = first (fitting rs method (split b'/' path))

first_fit-Finds : Finds first_fit
first_fit-Finds rs method path target params h = rw h refl

abbrev keys : Credentials
keys = record { api_url = codes "http://uran/"; token = codes "uran_1" }

abbrev answered : Response → Terminal
answered r = record { saved = some keys; sent = []; answers = λ n. some r; count = 0 }

abbrev plain : ℕ → Text → Response
plain status raw = record { status = status; raw = raw; json = none }

run-Reached_example :
    let c = set_scale (pos 4) (pos 2) (codes "small") (pos 1) (pos 3) in
    Reached first_fit (run ascii c) (meaning c) keys (answered (plain 200 []))
unfolding in_int32
run-Reached_example =
    run-Reached ascii first_fit first_fit-Finds keys (answered (plain 200 [])) refl
      (set_scale (pos 4) (pos 2) (codes "small") (pos 1) (pos 3))
      ((refl, omega arith), (refl, (refl, refl)))

abbrev encode : Json → Text
encode j = []

abbrev forbidden : Refusal
forbidden = record { status = 403; message = codes "not a member of this org" }

ask-write_error_example :
    let c : Client = record { api_url = codes "http://uran"; token = codes "uran_1" } in
    (ask ascii c "GET"
      (codes "/v1/orgs/2/members")
      none
      none
      (answered (write_error encode forbidden))).0
    ≡ err (refused "GET" (codes "/v1/orgs/2/members") (codes "not a member of this org (403)"))
unfolding text_beq format_nat
ask-write_error_example =
    ask-write_error ascii encode forbidden refl refl
      (record { api_url = codes "http://uran"; token = codes "uran_1" }) "GET"
      (codes "/v1/orgs/2/members") none none (answered (write_error encode forbidden)) refl

abbrev empty_page : AuditPage
empty_page = record { items = []; total = 0; limit = 20; offset = 0 }

abbrev show : ℕ → Text
show n = []

cmd_audit-undecodable_example :
    (cmd_audit ascii (answered (write_json encode 200 (audit_page_json show empty_page)))).0
    ≡ err undecodable
cmd_audit-undecodable_example =
    cmd_audit-undecodable ascii encode show empty_page keys
      (answered (write_json encode 200 (audit_page_json show empty_page))) refl refl

abbrev batches : List (List Text)
batches = (codes "clone" ∷ []) ∷ [] ∷ ([] ∷ codes "push" ∷ []) ∷ []

batches-IsBatch : All IsBatch batches
unfolding drop_cr text_beq byte_length
batches-IsBatch = (
  (((refl, (refl, (refl, (refl, (refl, tt))))), refl, omega arith), refl),
  (
    tt,
    (
      ((tt, refl, omega arith), (((refl, (refl, (refl, (refl, tt)))), refl, omega arith), refl)),
      tt,
    ),
  ),
)

abbrev viewer : Request
viewer = record { user_id = 7; method = "GET" }

abbrev written : Text
written = stream_logs 0 (watched build_row [] batches build_succeeded)

opened :
    (handle_deploy_logs viewer (codes "1") (watched build_row [] batches build_succeeded) start).0
    ≡ ok written
unfolding handle_deploy_logs ◌>>=◌ require_deploy_access parse_int scan scan_digit or_raise
    service_by_id deploy_by_id query find authorize_org role_in_org guard can_write path_int to_row
    catch lift pure raise parse_digits text_beq at_least rank is_mutation
opened = refl

stream_build_logs-handle_deploy_logs_example :
    (stream_build_logs ascii (pos 1) (answered (plain 200 written))).0
    ≡ ok (codes "clone" ∷ [] ∷ codes "push" ∷ codes "succeeded" ∷ [])
stream_build_logs-handle_deploy_logs_example =
    stream_build_logs-handle_deploy_logs ascii build_row batches build_succeeded (inl refl)
      batches-IsBatch viewer (codes "1") start written opened (pos 1) keys
      (answered (plain 200 written)) refl refl
