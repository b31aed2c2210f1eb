-- ===== src/Client/Services.antt =====
-- cmd/uran/commands.go: the commands on services and deploys, on the flags that were parsed.
use uran_api.Prelude.{
  ℤ, Text, not, ◌&&◌, Option, none, some, [], ◌∷◌, ◌++◌, ◌==◌, text_eq, nat_eq, if◌then◌else◌,
}
use uran_api.Exec.{◌>>=◌, ◌>>◌, guard}
use uran_api.Go.Text.{codes}
use uran_api.Go.Decimal.{format_int}
use uran_api.Go.Unicode.{Unicode}
use uran_api.Go.Json.{Json, text, number, obj, end, member}
use uran_api.Client.{
  Cli, misused, authed, ask, is_set, a_number, a_text, a_boolean, Shape, object, list,
}

abbrev deploy_view : Shape
deploy_view = object (
    ("id", a_number)
    ∷ ("service_id", a_number)
    ∷ ("status", a_text)
    ∷ ("commit_sha", a_text)
    ∷ ("image", a_text)
    ∷ [])

module _ (u : Unicode) where
  unfoldable pub cmd_deploy : ℤ → Text → Text → Cli (Option Json)
  cmd_deploy service commit image = do
    guard (is_set service) misused
    c ← authed
    if not (image == [])
        then ask u c "POST"
            (codes "/v1/services/" ++ (format_int service ++ (codes "/image-deploys")))
            (some (obj (member "image" (text image) end))) (some deploy_view)
        else ask u c "POST" (codes "/v1/services/" ++ (format_int service ++ (codes "/deploys")))
            (some (obj (member "commit_sha" (text commit) end))) (some deploy_view)

  unfoldable pub cmd_service_status : ℤ → Cli (Option Json)
  cmd_service_status project = do
    c ← authed
    ask u c "GET" (codes "/v1/projects/" ++ (format_int project ++ (codes "/status"))) none (
        some (
          list (
            ("service_id", a_number)
            ∷ ("name", a_text)
            ∷ ("type", a_text)
            ∷ ("suspended", a_boolean)
            ∷ ("status", a_text)
            ∷ [])))

  unfoldable pub cmd_status : ℤ → ℤ → Cli (Option Json)
  unfolding cmd_service_status
  cmd_status deploy project = if is_set project then cmd_service_status project else do
    guard (is_set deploy) misused
    c ← authed
    ask u c "GET" (codes "/v1/deploys/" ++ (format_int deploy)) none (some deploy_view)

  unfoldable pub cmd_rollback : ℤ → Cli (Option Json)
  cmd_rollback deploy = do
    guard (is_set deploy) misused
    c ← authed
    ask u c "POST" (codes "/v1/deploys/" ++ (format_int deploy ++ (codes "/rollback"))) none
        (some deploy_view)

  unfoldable pub cmd_info : ℤ → Cli (Option Json)
  cmd_info service = do
    guard (is_set service) misused
    c ← authed
    ask u c "GET" (codes "/v1/services/" ++ (format_int service)) none
        (some (object (("name", a_text) ∷ ("type", a_text) ∷ ("internal_host", a_text) ∷ [])))

  unfoldable pub cmd_usage : ℤ → Cli (Option Json)
  cmd_usage service = do
    guard (is_set service) misused
    c ← authed
    ask u c "GET" (codes "/v1/services/" ++ (format_int service ++ (codes "/usage"))) none (
        some (
          object (
            ("sample_count", a_number)
            ∷ ("window_seconds", a_number)
            ∷ ("cpu_core_seconds", a_number)
            ∷ ("avg_memory_mb", a_number)
            ∷ [])))

  unfoldable pub cmd_metrics : ℤ → Cli (Option Json)
  cmd_metrics service = do
    guard (is_set service) misused
    c ← authed
    ask u c "GET" (codes "/v1/services/" ++ (format_int service ++ (codes "/metrics"))) none (
        some
          (list (("pod", a_text) ∷ ("cpu_millicores", a_number) ∷ ("memory_bytes", a_number) ∷ [])))

  unfoldable pub cmd_scale : ℤ → ℤ → Text → ℤ → ℤ → Cli (Option Json)
  cmd_scale service replicas size low high = do
    guard (is_set service) misused
    c ← authed
    ask u c "POST" (codes "/v1/services/" ++ (format_int service ++ (codes "/scale")))
        (some (
          obj (
            member "replicas" (number replicas) (
              member "instance_size" (text size)
                (member "min_replicas" (number low) (member "max_replicas" (number high) end))))))
        none

  -- `suspendResume`, of "suspend" or "resume".
  unfoldable pub suspend_resume : ℤ → Text → Cli (Option Json)
  suspend_resume service action = do
    guard (is_set service) misused
    c ← authed
    ask u c "POST" (codes "/v1/services/" ++ (format_int service ++ (codes "/" ++ action))) none
        none

  abbrev pub cmd_suspend : ℤ → Cli (Option Json)
  cmd_suspend service = suspend_resume service (codes "suspend")

  abbrev pub cmd_resume : ℤ → Cli (Option Json)
  cmd_resume service = suspend_resume service (codes "resume")

  unfoldable pub cmd_health : ℤ → Text → Cli (Option Json)
  cmd_health service path = do
    guard (is_set service) misused
    c ← authed
    ask u c "POST" (codes "/v1/services/" ++ (format_int service ++ (codes "/health")))
        (some (obj (member "path" (text path) end))) none

  unfoldable pub cmd_disk_attach : ℤ → Text → Text → Cli (Option Json)
  cmd_disk_attach service size path = do
    guard (is_set service && (not (size == []) && not (path == []))) misused
    c ← authed
    ask u c "POST" (codes "/v1/services/" ++ (format_int service ++ (codes "/disk")))
        (some (obj (member "size" (text size) (member "path" (text path) end)))) none

  unfoldable pub cmd_disk_detach : ℤ → Cli (Option Json)
  cmd_disk_detach service = do
    guard (is_set service) misused
    c ← authed
    ask u c "DELETE" (codes "/v1/services/" ++ (format_int service ++ (codes "/disk"))) none none
