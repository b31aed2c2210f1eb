-- ===== src/Api/Reports.antt =====
-- internal/api/audit_handlers.go, usage_handlers.go, status_handlers.go and observability_handlers.go.
-- The stream of logs and the float of CPU seconds are left out; `ilike` stands for the database's
-- ILIKE and `metrics` for the metrics reader.
pub mod Bounds
pub mod Trail
use uran_api.Prelude.{
  ℕ, zero, suc, ◌+◌, ◌*◌, ◌/◌, ℤ, pos, negsuc, String, Text, Bool, not, Option, none, some, List,
  [], ◌∷◌, ◌++◌, ◌==◌, text_eq, if◌then◌else◌, leb, ltb, length,
}
use uran_api.Exec.{Result, ok, err, pure, ◌>>=◌, ◌>>◌, or_raise}
use uran_api.Go.Text.{codes}
use uran_api.Go.Decimal.{parse_int}
use uran_api.Svctype.{is_routable}
use uran_api.Naming.{namespace_for_org}
use uran_api.Store.{World, Error, Query}
use uran_api.Store.Models.{Service, UsageSample, Auditing}
use uran_api.Store.Deploys.{service_by_id}
use uran_api.Store.Reports.{
  AuditEntry, AuditQuery, ServiceStatus, insert_audit, list_audit, list_usage_samples,
  project_service_statuses,
}
use uran_api.Api.Access.{
  Request, Refusal, refusal, Handler, path_int, is_mutation, authorize_org, require_project_access,
  require_service_access,
}

abbrev pub audit_default_limit : ℕ
audit_default_limit = 20

abbrev pub audit_max_limit : ℕ
audit_max_limit = 100

-- The status that the recorder saw: `succeeded` is the handler's own.
abbrev pub status_of : {A : Type 0} → ℕ → Result Refusal A → ℕ
status_of succeeded (ok a) = succeeded
status_of succeeded (err e) = e.status

-- What the goroutine does that was started for an entry.
unfoldable pub write_audit : Auditing → Query Unit
write_audit a = insert_audit a.actor_user_id a.actor_email a.method a.path a.status

-- The entry is left to a goroutine, which runs at some later time.
unfoldable pub audit_middleware : {A : Type 0} → Request → Text → Text → ℕ → Handler A → Handler A
unfolding is_mutation
audit_middleware r email path succeeded next w =
    let (answer, w') = next w in
    let entry : Auditing = record {
      actor_user_id = r.user_id;
      actor_email = email;
      method = r.method;
      path = path;
      status = status_of succeeded answer;
    } in
    if is_mutation r.method
    then (answer, record w' { started = entry ∷ w'.started })
    else (answer, w')

pub record AuditPage : Type 0 where
  pub items : List AuditEntry
  pub total : ℕ
  pub limit : ℕ
  pub offset : ℕ

-- `v, err := strconv.Atoi(…); err == nil && v > 0`, or what stands there before.
abbrev pub positive_or : ℕ → Option ℤ → ℕ
positive_or before none = before
positive_or before (some (pos zero)) = before
positive_or before (some (pos (suc n))) = suc n
positive_or before (some (negsuc n)) = before

unfoldable pub audit_limit : Text → ℕ
audit_limit param =
    let limit = positive_or audit_default_limit (parse_int param) in
    if ltb audit_max_limit limit then audit_max_limit else limit

unfoldable pub audit_offset : Text → ℕ
audit_offset param = positive_or 0 (parse_int param)

unfoldable pub handle_list_audit :
    (Text → Text → Bool) → Request → Text → String → Text → Text → Handler AuditPage
unfolding audit_limit audit_offset
handle_list_audit ilike r search method limit offset = do
  let q : AuditQuery = record {
    search = search;
    method = method;
    limit = audit_limit limit;
    offset = audit_offset offset;
  }
  found ← or_raise (list_audit ilike r.user_id q) (refusal 500 (codes "could not list audit log"))
  pure (record { items = found.0; total = found.1; limit = q.limit; offset = q.offset })

abbrev pub usage_sample_limit : ℕ
usage_sample_limit = 200

-- In seconds.
abbrev pub usage_window_seconds : ℕ
usage_window_seconds = 60

pub record UsageResponse : Type 0 where
  pub samples : List UsageSample
  pub sample_count : ℕ
  pub window_seconds : ℕ
  pub avg_memory_mb : ℕ

unfoldable pub total_memory : List UsageSample → ℕ
total_memory [] = 0
total_memory (u ∷ us) = u.memory_bytes + total_memory us

-- The sum of at most 200 sizes stays below 2 ^ 63.
unfoldable pub usage_of : List UsageSample → UsageResponse
unfolding total_memory
usage_of samples = record {
  samples = samples;
  sample_count = length samples;
  window_seconds = length samples * usage_window_seconds;
  avg_memory_mb =
      if ltb 0 (length samples) then total_memory samples / length samples / (1024 * 1024) else 0;
}

unfoldable pub handle_service_usage : Request → Text → Handler UsageResponse
unfolding usage_of
handle_service_usage r param = do
  svc ← require_service_access r param
  samples ←
      or_raise (list_usage_samples svc.id usage_sample_limit)
        (refusal 500 (codes "could not load usage"))
  pure (usage_of samples)

unfoldable pub handle_project_status : Request → Text → Handler (List ServiceStatus)
handle_project_status r param = do
  project_id ← require_project_access r param
  or_raise (project_service_statuses project_id) (refusal 500 (codes "could not load status"))

unfoldable pub require_service_with_org : Request → Text → Handler (Service × ℕ)
unfolding path_int
require_service_with_org r param = do
  id ← path_int param (codes "invalid service id")
  s ← or_raise (service_by_id id) (refusal 404 (codes "service not found"))
  authorize_org r s.1
  pure s

pub record ServiceDetail : Type 0 where
  pub service : Service
  pub url : Text
  pub internal_host : Text

unfoldable pub service_detail : Text → Service → ℕ → ServiceDetail
service_detail base_domain svc org_id =
    if is_routable svc.type
    then record {
      service = svc;
      url = if base_domain == [] then [] else svc.slug ++ (codes "." ++ base_domain);
      internal_host = svc.slug ++ (codes "." ++ namespace_for_org org_id);
    }
    else record { service = svc; url = []; internal_host = [] }

unfoldable pub handle_get_service : Text → Request → Text → Handler ServiceDetail
unfolding service_detail
handle_get_service base_domain r param = do
  s ← require_service_with_org r param
  pure (service_detail base_domain s.0 s.1)

unfoldable pub service_selector : Text → Text
service_selector slug = codes "app.kubernetes.io/name=" ++ slug

unfoldable pub handle_metrics : {A : Type 0} → (Text → Text → Query A) → Request → Text → Handler A
unfolding service_selector
handle_metrics metrics r param = do
  s ← require_service_with_org r param
  or_raise (metrics (namespace_for_org s.1) (service_selector s.0.slug))
      (refusal 503 (codes "metrics unavailable"))
