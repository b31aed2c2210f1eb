-- ===== src/Api/Reports/Trail.antt =====
-- internal/api/audit_handlers.go: what a request leaves in the audit log.
use uran_api.Prelude.{
  text_beq, ◌≡◌, refl, sym, true, suc, ℕ, Text, String, Bool, [], ◌∷◌, map, any, length, take,
  nat_eq, nat_beq_iff, select,
}
use uran_api.Go.Decimal.{parse_int}
use uran_api.Exec.{Result, ok, pure, raise, ◌>>=◌, or_raise, catch}
use uran_api.Store.{World, Healthy, query, statement}
use uran_api.Store.Accounts.{is_user}
use uran_api.Store.Reports.{
  AuditQuery, new_audit_log, entry_of, is_audited, insert_audit, count_audit, page_audit,
  list_audit,
}
use uran_api.Api.Access.{Request, Refusal, Handler}
use uran_api.Api.Access.Roles.{IsRead, not_read}
use uran_api.Api.Reports.{
  write_audit, status_of, audit_middleware, audit_limit, audit_offset, handle_list_audit,
}
use uran_api.Store.Models.{Auditing}
use uran_api.Store.Reports.Filters.{picked, select-is_audited}

-- The world after an entry was written.
abbrev with_entry : ℕ → Text → String → Text → ℕ → World → World
with_entry actor_id email method path status w = record w {
  db = record w.db {
    audit_logs = new_audit_log actor_id email method path status w.db ∷ w.db.audit_logs;
    next_audit_log = suc w.db.next_audit_log;
  };
  sent = suc w.sent;
}

inserted :
    (actor_id : ℕ) (email : Text) (method : String) (path : Text) (status : ℕ) (w : World)
    → Healthy w
    → any (is_user actor_id) w.users ≡ true
    → (insert_audit actor_id email method path status w).1
      ≡ with_entry actor_id email method path status w
unfolding insert_audit statement
inserted actor_id email method path status w healthy known = rw (healthy w.sent, known) refl

-- The entry that a request leaves.
abbrev pub entry_for : {A : Type 0} → Request → Text → Text → ℕ → Result Refusal A → Auditing
entry_for r email path succeeded answer = record {
  actor_user_id = r.user_id;
  actor_email = email;
  method = r.method;
  path = path;
  status = status_of succeeded answer;
}

module _ (ilike : Text → Text → Bool) where
  -- The query of a request without parameters.
  abbrev plain : AuditQuery
  plain = record { search = []; method = ""; limit = 20; offset = 0 }

  shown :
      (r : Request) (a : Auditing) (v : World)
      → Healthy v
      → a.actor_user_id ≡ r.user_id
      → (handle_list_audit ilike r [] "" [] []
          (with_entry a.actor_user_id a.actor_email a.method a.path a.status v)).0
        ≡ ok (record {
          items =
              entry_of (new_audit_log a.actor_user_id a.actor_email a.method a.path a.status v.db)
              ∷ map entry_of (take 19 (select (is_audited ilike r.user_id plain) v.audit_logs));
          total = suc (length (select (is_audited ilike r.user_id plain) v.audit_logs));
          limit = 20;
          offset = 0;
        })
  unfolding handle_list_audit list_audit count_audit page_audit is_audited query ◌>>=◌ or_raise
      catch pure raise audit_limit audit_offset parse_int select text_beq
  shown r a v healthy mine =
      rw
        (
          healthy (suc v.sent),
          healthy (suc (suc v.sent)),
          (nat_beq_iff a.actor_user_id r.user_id).1 mine,
        )
        refl

  -- A request that is no read (GET, HEAD or OPTIONS) keeps its answer and starts one goroutine, which
  -- holds the user, the method, the path and the status of the answer. Once that has run, in whatever
  -- world it does, in which the database still knows the user and no request to the database fails,
  -- the entry is the first one of the user's audit log, on top of the 19 that were the newest of the
  -- user's own before, when the user asks for the log with no parameters.
  pub audit_middleware-handle_list_audit :
      {A : Type 0} (next : Handler A) (r : Request) (email path : Text) (succeeded : ℕ)
      (w v : World)
      → (IsRead r.method → ⊥)
      → Healthy v
      → any (is_user r.user_id) v.users ≡ true
      → ((audit_middleware r email path succeeded next w).0 ≡ (next w).0)
        × ((audit_middleware r email path succeeded next w).1.started
            ≡ entry_for r email path succeeded (next w).0 ∷ (next w).1.started)
        × ((handle_list_audit ilike r [] "" [] []
              (write_audit (entry_for r email path succeeded (next w).0) v).1).0
            ≡ ok (record {
              items =
                  record {
                    id = v.next_audit_log;
                    method = r.method;
                    path = path;
                    status = status_of succeeded (next w).0;
                    created_at = v.now;
                  }
                  ∷ map entry_of (take 19 (picked ilike r.user_id [] "" v));
              total = suc (length (picked ilike r.user_id [] "" v));
              limit = 20;
              offset = 0;
            }))
  unfolding audit_middleware write_audit
  audit_middleware-handle_list_audit next r email path succeeded w v change healthy known =
      let a = entry_for r email path succeeded (next w).0 in
      rw (not_read r.method change) (
        refl,
        refl,
        rw
            (
              sym (select-is_audited ilike r.user_id plain v),
              inserted r.user_id email r.method path a.status v healthy known,
            )
            (shown r a v healthy refl),
      )
