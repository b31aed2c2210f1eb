-- ===== src/Client/Errors.antt =====
-- cmd/uran with internal/api: what the client makes of an answer that is not what it asked for.
use uran_api.Prelude.{
  ◌≡◌, refl, ℕ, String, Text, true, false, ◌||◌, Option, some, [], ◌==◌, nat_eq, text_eq, ltb, leb,
}
use uran_api.Exec.{err, lift, ◌>>=◌, pure}
use uran_api.Go.Unicode.{Unicode}
use uran_api.Go.Json.{Json}
use uran_api.Client.{
  Client, Credentials, Shape, Terminal, refused, undecodable, with_status, server_error, outcome,
  decoded, ask, send, authed, load, new_client, fits,
}
use uran_api.Client.Orgs.{cmd_audit}
use uran_api.Api.Access.{Refusal}
use uran_api.Api.Reports.{AuditPage}
use uran_api.Api.Responses.{write_error, write_json, audit_page_json}

-- A refusal of a handler, written by the server, reaches the user of the client as its message with
-- the status in parentheses, whatever was asked for; the status is not 2xx and the message is not
-- empty.
pub ask-write_error :
    (u : Unicode) (encode : Json → Text) (e : Refusal)
    → (ltb e.status 200 || leb 300 e.status) ≡ true
    → (e.message == []) ≡ false
    → (c : Client) (method : String) (path : Text) (body : Option Json) (out : Option Shape)
    → (t : Terminal) → t.answers t.count ≡ some (write_error encode e)
    → (ask u c method path body out t).0
      ≡ err (refused method path (with_status e.message e.status))
unfolding ask send outcome server_error write_error lift ◌>>=◌
ask-write_error u encode e failed given c method path body out t h = rw (h, failed, given) refl

-- `uran audit` fails on each page that the server answers with: it decodes a list, and the page is an
-- object.
pub cmd_audit-undecodable :
    (u : Unicode) (encode : Json → Text) (show : ℕ → Text) (p : AuditPage) (cred : Credentials)
    → (t : Terminal) → t.saved ≡ some cred
    → t.answers t.count ≡ some (write_json encode 200 (audit_page_json show p))
    → (cmd_audit u t).0 ≡ err undecodable
unfolding cmd_audit authed load new_client ask send outcome decoded fits write_json lift ◌>>=◌ pure
cmd_audit-undecodable u encode show p cred t saved h = rw (saved, h) refl
