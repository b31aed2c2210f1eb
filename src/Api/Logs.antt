-- ===== src/Api/Logs.antt =====
-- internal/api/logstream_handlers.go: the stream of a build's log. `polls` is what the database
-- answers to one poll after the other, nothing where the query fails, until the client goes.
use uran_api.Prelude.{
  ℕ, String, Text, Bool, ◌||◌, Option, none, some, List, [], ◌∷◌, ◌++◌, ◌==◌, nat_eq, text_eq,
  string_eq, ltb, length, drop, if◌then◌else◌,
}
use uran_api.Exec.{pure, ◌>>◌}
use uran_api.Go.Text.{codes, split}
use uran_api.Deploy.{build_succeeded, build_failed}
use uran_api.Store.Models.{Build}
use uran_api.Api.Access.{Request, Handler, require_deploy_access}

unfoldable pub is_terminal_build : String → Bool
is_terminal_build status = status == build_succeeded || status == build_failed

-- `strings.TrimRight(s, "\n")`
unfoldable pub trim_newlines : Text → Text
trim_newlines [] = []
trim_newlines (c ∷ s) =
    let rest = trim_newlines s in
    if c == 10 then (if rest == [] then [] else c ∷ rest) else c ∷ rest

unfoldable pub frames : List Text → Text
frames [] = []
frames (line ∷ lines) = codes "data: " ++ (line ++ 10 ∷ frames lines)

unfoldable pub write_sse : Text → Text
unfolding trim_newlines frames split
write_sse chunk = frames (split 10 (trim_newlines chunk)) ++ 10 ∷ []

unfoldable pub write_sse_event : Text → Text → Text
write_sse_event event payload =
    codes "event: " ++ (event ++ 10 ∷ (codes "data: " ++ (payload ++ 10 ∷ 10 ∷ [])))

-- The loop: `sent` code points of the log were streamed.
unfoldable pub stream_logs : ℕ → List (Option Build) → Text
unfolding is_terminal_build write_sse write_sse_event
stream_logs sent [] = []
stream_logs sent (none ∷ polls) = []
stream_logs sent (some b ∷ polls) =
    let grown = ltb sent (length b.logs) in
    let rest = stream_logs (if grown then length b.logs else sent) polls in
    (if grown then write_sse (drop sent b.logs) else [])
    ++ (if is_terminal_build b.status then write_sse_event (codes "end") (codes b.status) else rest)

unfoldable pub handle_deploy_logs : Request → Text → List (Option Build) → Handler Text
unfolding stream_logs
handle_deploy_logs r param polls = do require_deploy_access r param; pure (stream_logs 0 polls)
