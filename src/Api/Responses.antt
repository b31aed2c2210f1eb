-- ===== src/Api/Responses.antt =====
-- internal/api/server.go: how an answer is written. `encode` is json.Encoder.
use uran_api.Prelude.{ℕ, pos, Text, some, List, [], ◌∷◌}
use uran_api.Go.Http.{Response}
use uran_api.Go.Json.{Json, number, text, arr, obj, Elems, nil, elem, end, member}
use uran_api.Go.Text.{codes}
use uran_api.Store.Reports.{AuditEntry}
use uran_api.Api.Access.{Refusal}
use uran_api.Api.Reports.{AuditPage}

module _ (encode : Json → Text) where
  unfoldable pub write_json : ℕ → Json → Response
  write_json status v = record { status = status; raw = encode v; json = some v }

  unfoldable pub write_error : Refusal → Response
  unfolding write_json
  write_error e = write_json e.status (obj (member "error" (text e.message) end))

-- `show` is time.Time's MarshalJSON.
module _ (show : ℕ → Text) where
  abbrev audit_entry_json : AuditEntry → Json
  audit_entry_json e = obj (
      member "id" (number (pos e.id)) (
        member "method" (text (codes e.method)) (
          member "path" (text e.path) (
            member "status" (number (pos e.status))
              (member "created_at" (text (show e.created_at)) end)))))

  abbrev audit_items : List AuditEntry → Elems
  audit_items [] = nil
  audit_items (e ∷ es) = elem (audit_entry_json e) (audit_items es)

  abbrev pub audit_page_json : AuditPage → Json
  audit_page_json p = obj (
      member "items" (arr (audit_items p.items)) (
        member "total" (number (pos p.total))
          (member "limit" (number (pos p.limit)) (member "offset" (number (pos p.offset)) end))))
