-- ===== src/Store/Reports.antt =====
-- internal/store/audit.go, usage.go and status.go: what was done, what was used and how it stands.
-- `ilike` stands for the database's ILIKE, of a text and a pattern.
pub mod Filters
pub mod Pages
use uran_api.Prelude.{
  ℕ, suc, String, Text, Bool, not, ◌&&◌, ◌||◌, Option, none, some, List, [], ◌∷◌, ◌++◌, map,
  reverse, ◌==◌, nat_eq, string_eq, text_eq, if◌then◌else◌, find, select, any, length, take, drop,
}
use uran_api.Exec.{Result, ok, err, pure, ◌>>=◌}
use uran_api.Go.Text.{codes}
use uran_api.Store.{Db, Error, violation, Query, query, statement}
use uran_api.Store.Models.{Project, Service, Deploy, AuditLog, UsageSample, UsageRow}
use uran_api.Store.Accounts.{is_user}

pub record AuditEntry : Type 0 where
  pub id : ℕ
  pub method : String
  pub path : Text
  pub status : ℕ
  pub created_at : ℕ

pub record AuditQuery : Type 0 where
  pub search : Text
  pub method : String
  pub limit : ℕ
  pub offset : ℕ

abbrev pub new_audit_log : ℕ → Text → String → Text → ℕ → Db → AuditLog
new_audit_log actor_id actor_email method path status db = record {
  id = db.next_audit_log;
  actor_user_id = actor_id;
  actor_email = actor_email;
  method = method;
  path = path;
  status = status;
  created_at = db.now;
}

-- The caller ignores the error.
unfoldable pub insert_audit : ℕ → Text → String → Text → ℕ → Query Unit
insert_audit actor_id actor_email method path status = statement λ db.
    if any (is_user actor_id) db.users
    then ok (
      tt,
      record db {
        audit_logs = new_audit_log actor_id actor_email method path status db ∷ db.audit_logs;
        next_audit_log = suc db.next_audit_log;
      },
    )
    else err violation

abbrev pub entry_of : AuditLog → AuditEntry
entry_of l = record {
  id = l.id;
  method = l.method;
  path = l.path;
  status = l.status;
  created_at = l.created_at;
}

module _ (ilike : Text → Text → Bool) where
  -- The WHERE clause that `ListAudit` puts together.
  unfoldable pub is_audited : ℕ → AuditQuery → AuditLog → Bool
  is_audited actor_id q l =
      l.actor_user_id == actor_id
      && ((q.search == [] || ilike l.path (codes "%" ++ (q.search ++ codes "%")))
          && (q.method == "" || l.method == q.method))

  unfoldable pub count_audit : ℕ → AuditQuery → Query ℕ
  unfolding is_audited
  count_audit actor_id q = query λ db. ok (length (select (is_audited actor_id q) db.audit_logs))

  unfoldable pub page_audit : ℕ → AuditQuery → Query (List AuditEntry)
  unfolding is_audited
  page_audit actor_id q = query λ db.
      ok
        (map entry_of (take q.limit (drop q.offset (select (is_audited actor_id q) db.audit_logs))))

  unfoldable pub list_audit : ℕ → AuditQuery → Query (List AuditEntry × ℕ)
  unfolding count_audit page_audit
  list_audit actor_id q = do
    total ← count_audit actor_id q
    entries ← page_audit actor_id q
    pure (entries, total)

pub record MeteredService : Type 0 where
  pub service_id : ℕ
  pub slug : Text
  pub org_id : ℕ

abbrev pub metered : Db → List Service → List MeteredService
metered db [] = []
metered db (s ∷ ss) = elim (find (λ (p : Project). p.id == s.project_id) db.projects) [
  | none ↦ metered db ss
  | some p ↦ record { service_id = s.id; slug = s.slug; org_id = p.org_id } ∷ metered db ss
]

unfoldable pub services_for_metering : Query (List MeteredService)
services_for_metering =
    query λ db. ok (metered db (select (λ (s : Service). not s.suspended) db.services))

unfoldable pub insert_usage_sample : ℕ → ℕ → ℕ → Query Unit
insert_usage_sample service_id cpu_milli mem_bytes = statement λ db.
    if any (λ (s : Service). s.id == service_id) db.services
    then ok (
      tt,
      record db {
        usage_samples =
            record {
              service_id = service_id;
              sample = record {
                cpu_millicores = cpu_milli;
                memory_bytes = mem_bytes;
                sampled_at = db.now;
              };
            }
            ∷ db.usage_samples;
      },
    )
    else err violation

unfoldable pub list_usage_samples : ℕ → ℕ → Query (List UsageSample)
list_usage_samples service_id limit = query λ db. ok (
    map (λ (r : UsageRow). r.sample)
      (take limit (select (λ (r : UsageRow). r.service_id == service_id) db.usage_samples)))

pub record ServiceStatus : Type 0 where
  pub service_id : ℕ
  pub name : Text
  pub type : String
  pub suspended : Bool
  pub status : String

abbrev pub status_or_none : Option Deploy → String
status_or_none none = "none"
status_or_none (some d) = d.status

abbrev pub service_status : Db → Service → ServiceStatus
service_status db s = record {
  service_id = s.id;
  name = s.name;
  type = s.type;
  suspended = s.suspended;
  status = status_or_none (find (λ (d : Deploy). d.service_id == s.id) db.deploys);
}

-- The oldest service first.
unfoldable pub project_service_statuses : ℕ → Query (List ServiceStatus)
project_service_statuses project_id = query λ db. ok (
    map (service_status db)
      (reverse (select (λ (s : Service). s.project_id == project_id) db.services)))
