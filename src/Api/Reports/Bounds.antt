-- ===== src/Api/Reports/Bounds.antt =====
-- internal/api/audit_handlers.go: what an answer of the audit log shows.
use uran_api.Prelude.{
  length-take, ◌≡◌, refl, ap, sym, ◌∙◌, ℤ, zero, suc, pos, negsuc, ℕ, ◌≤◌, Text, String, Bool,
  Option, none, some, List, [], ◌∷◌, map, select, length, take, drop, arith,
}
use uran_api.Exec.{ok, pure, raise, ◌>>=◌, or_raise, catch}
use uran_api.Go.Decimal.{parse_int}
use uran_api.Store.{World, query}
use uran_api.Store.Models.{AuditLog}
use uran_api.Store.Reports.{entry_of, is_audited, count_audit, page_audit, list_audit}
use uran_api.Store.Reports.Filters.{picked, select-is_audited}
use uran_api.Api.Access.{Request}
use uran_api.Api.Reports.{
  AuditPage, positive_or, audit_default_limit, audit_max_limit, audit_limit, audit_offset,
  handle_list_audit,
}

length-map : (ls : List AuditLog) → length (map entry_of ls) ≡ length ls
length-map [] = refl
length-map (l ∷ ls) = ap suc (length-map ls)

positive : (before : ℕ) (o : Option ℤ) → 1 ≤ before → 1 ≤ positive_or before o
positive before none h = h
positive before (some (pos zero)) h = h
positive before (some (pos (suc n))) h = omega arith
positive before (some (negsuc n)) h = h

audit_limit-bounds :
    (param : Text) → (1 ≤ audit_limit param) × (audit_limit param ≤ audit_max_limit)
unfolding audit_limit
audit_limit-bounds param =
    ground (arith, positive audit_default_limit (parse_int param) (omega arith))

-- A limit in its bounds is taken as it is.
audit_limit-asked :
    (param : Text) (n : ℕ)
    → parse_int param ≡ some (pos n)
    → 1 ≤ n
    → n ≤ audit_max_limit
    → audit_limit param ≡ n
unfolding audit_limit
audit_limit-asked param zero e lo hi = ground arith
audit_limit-asked param (suc n) e lo hi = rw e (ground arith)

audit_offset-start :
    (param : Text) (n : ℕ) → parse_int param ≡ some (pos n) → audit_offset param ≡ n
unfolding audit_offset
audit_offset-start param zero e = rw e refl
audit_offset-start param (suc n) e = rw e refl

-- The rows that the query selects.
abbrev filtered : (Text → Text → Bool) → ℕ → Text → String → World → List AuditLog
filtered ilike actor_id search method w =
    select
      (is_audited ilike actor_id
        (record { search = search; method = method; limit = 0; offset = 0 }))
      w.audit_logs

-- A page shows at most 100 entries, has a limit of 1 to 100 and shows the window of its limit and its
-- offset on the rows. A limit of 1 to 100 and an offset that are asked for are those of the page.
pub record Window (ls : List AuditLog) (limit offset : Text) (p : AuditPage) : Type 0 where
  pub least : 1 ≤ p.limit
  pub most : p.limit ≤ audit_max_limit
  pub few : length p.items ≤ p.limit
  pub items : p.items ≡ map entry_of (take p.limit (drop p.offset ls))
  pub total : p.total ≡ length ls
  pub asked : (n : ℕ) → parse_int limit ≡ some (pos n) → 1 ≤ n → n ≤ audit_max_limit → p.limit ≡ n
  pub start : (n : ℕ) → parse_int offset ≡ some (pos n) → p.offset ≡ n

module _ (ilike : Text → Text → Bool) (r : Request) (search : Text) (method : String)
    (limit offset : Text) where
  abbrev page_of : List AuditLog → AuditPage
  page_of ls = record {
    items = map entry_of (take (audit_limit limit) (drop (audit_offset offset) ls));
    total = length ls;
    limit = audit_limit limit;
    offset = audit_offset offset;
  }

  page_of-Window : (ls : List AuditLog) → Window ls limit offset (page_of ls)
  page_of-Window ls =
      let bounds = audit_limit-bounds limit in
      let rows = drop (audit_offset offset) ls in
      let short = length-take (audit_limit limit) rows in
      let same = length-map (take (audit_limit limit) rows) in
      record {
        least = bounds.0;
        most = bounds.1;
        few = omega arith;
        items = refl;
        total = refl;
        asked = audit_limit-asked limit;
        start = audit_offset-start offset;
      }

  shown : (ls : List AuditLog) (p : AuditPage) → page_of ls ≡ p → Window ls limit offset p
  shown ls p e = rw (sym e) (page_of-Window ls)

  answered :
      (w : World) (p : AuditPage)
      → (handle_list_audit ilike r search method limit offset w).0 ≡ ok p
      → page_of (filtered ilike r.user_id search method w) ≡ p
  unfolding handle_list_audit list_audit count_audit page_audit is_audited query ◌>>=◌ or_raise
      catch pure raise audit_limit audit_offset
  answered w p e = ground (arith, e)

  -- Whatever the query's parameters are, an answer of the audit log is a window of at most 100 rows
  -- on the caller's own rows, as the search and the method pick them, with their number as its total;
  -- a limit of 1 to 100 and an offset that are given as numbers are those of the window.
  pub handle_list_audit-Window :
      (w : World) (p : AuditPage)
      → (handle_list_audit ilike r search method limit offset w).0 ≡ ok p
      → Window (picked ilike r.user_id search method w) limit offset p
  handle_list_audit-Window w p e =
      let same =
        select-is_audited ilike r.user_id
          (record { search = search; method = method; limit = 0; offset = 0 }) w in
      shown (picked ilike r.user_id search method w) p (ap page_of (sym same) ∙ answered w p e)
