-- ===== src/Tests/Reports.antt =====
-- The audit log at concrete inputs.
use text.Mathlib.TextEquality.{eq_iff}
use uran_api.Prelude.{
  inl, inr, ◌≡◌, refl, true, ℕ, Text, Bool, [], ◌∷◌, select, find, discard, any, arith, text_beq,
}
use uran_api.Exec.{ok, ◌>>=◌, or_raise, catch, lift, pure, raise, guard}
use uran_api.Go.Decimal.{parse_int, parse_digits, scan, scan_digit}
use uran_api.Rbac.{at_least, rank, can_write}
use uran_api.Store.Members.{role_in_org}
use uran_api.Store.Deploys.{service_by_id}
use uran_api.Store.Services.{delete_env_var}
use uran_api.Go.Text.{codes}
use uran_api.Store.{World, query, statement}
use uran_api.Store.Models.{AuditLog}
use uran_api.Store.Reports.{AuditQuery, entry_of, is_audited, list_audit, count_audit, page_audit}
use uran_api.Store.Reports.Filters.{picked}
use uran_api.Store.Reports.Pages.{walk, walk-covers}
use uran_api.Api.Access.{
  Request, Handler, is_mutation, require_service_access, authorize_org, path_int, to_row,
}
use uran_api.Api.Access.Roles.{IsRead}
use uran_api.Api.Attachments.{handle_delete_env}
use uran_api.Api.Reports.{
  AuditPage, write_audit, audit_middleware, handle_list_audit, audit_limit, audit_offset,
}
use uran_api.Api.Reports.Bounds.{Window, handle_list_audit-Window}
use uran_api.Api.Reports.Trail.{entry_for, audit_middleware-handle_list_audit}
use uran_api.Tests.World.{start}

-- Every pattern that is not empty is found.
abbrev found : Text → Text → Bool
found value pattern = true

abbrev log : ℕ → AuditLog
log id = record {
  id = id;
  actor_user_id = 7;
  actor_email = codes "a@b";
  method = "POST";
  path = codes "/v1/orgs";
  status = 201;
  created_at = 9;
}

abbrev logged : World
logged = record start {
  db = record start.db {
    audit_logs = log 3 ∷ record (log 2) { actor_user_id = 8 } ∷ log 1 ∷ log 0 ∷ [];
  };
}

abbrev whole : AuditQuery
whole = record { search = []; method = ""; limit = 2; offset = 0 }

walk-covers_example :
    walk found 7 2 whole logged ≡ entry_of (log 3) ∷ entry_of (log 1) ∷ entry_of (log 0) ∷ []
unfolding select is_audited text_beq list_audit count_audit page_audit query ◌>>=◌ pure
walk-covers_example = walk-covers found 7 2 whole logged (λ n. refl) (omega arith)

abbrev caller : Request
caller = record { user_id = 7; method = "DELETE" }

abbrev second : AuditPage
second = record {
  items = entry_of (log 1) ∷ entry_of (log 0) ∷ [];
  total = 3;
  limit = 100;
  offset = 1;
}

handle_list_audit-Window_example :
    Window (picked found 7 (codes "orgs") "POST" logged) (codes "500") (codes "1") second
unfolding handle_list_audit list_audit count_audit page_audit is_audited query ◌>>=◌ or_raise catch
    pure raise audit_limit audit_offset parse_int parse_digits scan scan_digit select text_beq
handle_list_audit-Window_example =
    handle_list_audit-Window found caller (codes "orgs") "POST" (codes "500") (codes "1") logged
      second refl

-- The answer is a 404: there is no such variable.
abbrev deletion : Handler Unit
deletion = handle_delete_env caller (codes "1") (codes "PORT")

-- By the time that the goroutine runs, the user has sent another request.
abbrev later : World
later = record logged { db = record logged.db { next_audit_log = 5; now = 12 }; sent = 6 }

change : IsRead "DELETE" → ⊥
change (inl e) = ground (arith, (eq_iff "DELETE" "GET").1 e)
change (inr (inl e)) = ground (arith, (eq_iff "DELETE" "HEAD").1 e)
change (inr (inr e)) = ground (arith, (eq_iff "DELETE" "OPTIONS").1 e)

audit_middleware-handle_list_audit_example :
    let path = codes "/v1/services/1/env/PORT" in
    let entry = entry_for caller (codes "a@b") path 200 (deletion logged).0 in
    ((audit_middleware caller (codes "a@b") path 200 deletion logged).0 ≡ (deletion logged).0)
    × ((audit_middleware caller (codes "a@b") path 200 deletion logged).1.started
        ≡ entry ∷ (deletion logged).1.started)
    × ((handle_list_audit found caller [] "" [] [] (write_audit entry later).1).0
        ≡ ok (record {
          items =
              record { id = 5; method = "DELETE"; path = path; status = 404; created_at = 12 }
              ∷ entry_of (log 3)
              ∷ entry_of (log 1)
              ∷ entry_of (log 0)
              ∷ [];
          total = 4;
          limit = 20;
          offset = 0;
        }))
unfolding is_mutation handle_delete_env ◌>>=◌ require_service_access parse_int scan scan_digit
    or_raise service_by_id query find authorize_org role_in_org guard can_write delete_env_var
    statement select path_int to_row catch lift pure raise parse_digits discard text_beq at_least
    rank is_audited any
audit_middleware-handle_list_audit_example =
    audit_middleware-handle_list_audit found deletion caller (codes "a@b")
      (codes "/v1/services/1/env/PORT") 200 logged later change (λ n. refl) refl
