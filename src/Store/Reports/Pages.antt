-- ===== src/Store/Reports/Pages.antt =====
-- internal/store/audit.go: the pages of an audit log.
use uran_api.Prelude.{
  ◌≡◌, refl, sym, ap, ◌∙◌, ℕ, zero, suc, ◌+◌, ◌*◌, ◌≤◌, Text, Bool, List, [], ◌++◌, map, select,
  length, take, drop, drop-add, take-drop, drop-all, arith,
}
use mathlib.Core.List.{map-append}
use uran_api.Exec.{Result, ok, err, pure, ◌>>=◌}
use uran_api.Store.{World, Error, Healthy, query}
use uran_api.Store.Models.{AuditLog}
use uran_api.Store.Reports.Filters.{picked, select-is_audited}
use uran_api.Store.Reports.{
  AuditEntry, AuditQuery, entry_of, is_audited, count_audit, page_audit, list_audit,
}

abbrev pub total_of : Result Error (List AuditEntry × ℕ) → ℕ
total_of (ok (page, total)) = total
total_of (err e) = 0

abbrev entries : Result Error (List AuditEntry × ℕ) → List AuditEntry
entries (ok (page, total)) = page
entries (err e) = []

module _ (ilike : Text → Text → Bool) (actor_id : ℕ) where
  -- The entries of the user that a query's search and method pick, newest first.
  abbrev pub trail : AuditQuery → World → List AuditEntry
  trail q w = map entry_of (picked ilike actor_id q.search q.method w)

  pub listed :
      (q : AuditQuery) (w : World)
      → Healthy w
      → list_audit ilike actor_id q w ≡ (
        ok (
          map entry_of
              (take q.limit (drop q.offset (select (is_audited ilike actor_id q) w.audit_logs))),
          length (select (is_audited ilike actor_id q) w.audit_logs),
        ),
        record w { sent = suc (suc w.sent) },
      )
  unfolding list_audit count_audit page_audit query ◌>>=◌ pure
  listed q w h = rw (h w.sent, h (suc w.sent)) refl

  -- What a client collects that asks for one page after the other.
  abbrev pub walk : ℕ → AuditQuery → World → List AuditEntry
  walk zero q w = []
  walk (suc k) q w =
      entries (list_audit ilike actor_id q w).0
      ++ walk k (record q { offset = q.offset + q.limit }) (list_audit ilike actor_id q w).1

  abbrev pub rows : AuditQuery → World → List AuditLog
  rows q w = select (is_audited ilike actor_id q) w.audit_logs

  -- From an offset on, the pages are what is left.
  walk_from :
      (k : ℕ) (q : AuditQuery) (w : World)
      → Healthy w
      → length (rows q w) ≤ q.offset + k * q.limit
      → walk k q w ≡ map entry_of (drop q.offset (rows q w))
  unfolding is_audited
  walk_from zero q w h enough = ap (map entry_of) (sym (drop-all q.offset (rows q w) (omega arith)))
  walk_from (suc k) q w h enough =
      let next = record q { offset = q.offset + q.limit } in
      let page = take q.limit (drop q.offset (rows q w)) in
      ap (λ r. entries r.0 ++ walk k next r.1) (listed q w h)
      ∙ (ap (λ more. map entry_of page ++ more)
            (walk_from k next (record w { sent = suc (suc w.sent) }) h (omega arith))
          ∙ (sym (map-append entry_of page (drop (q.offset + q.limit) (rows q w)))
              ∙ ap (map entry_of) (
                  ap (λ more. page ++ more) (drop-add q.offset q.limit (rows q w))
                  ∙ take-drop q.limit (drop q.offset (rows q w)))))

  counted :
      (q : AuditQuery) (w : World)
      → Healthy w
      → total_of (list_audit ilike actor_id (record q { offset = 0 }) w).0 ≡ length (rows q w)
  unfolding is_audited
  counted q w h = ap (λ r. total_of r.0) (listed (record q { offset = 0 }) w h)

  -- Pages that together have room for the total of the first answer, asked for one after the other
  -- from offset 0, are together the user's own log as the search and the method pick it, newest
  -- first, each row once, while no request to the database fails and no row is added.
  pub walk-covers :
      (k : ℕ) (q : AuditQuery) (w : World)
      → Healthy w
      → total_of (list_audit ilike actor_id (record q { offset = 0 }) w).0 ≤ k * q.limit
      → walk k (record q { offset = 0 }) w ≡ trail q w
  unfolding is_audited
  walk-covers k q w h enough =
      walk_from k (record q { offset = 0 }) w h (omega (arith, enough, counted q w h))
      ∙ ap (map entry_of) (select-is_audited ilike actor_id q w)
