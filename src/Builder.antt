-- ===== src/Builder.antt =====
-- internal/builder: the build pipeline of one deploy. The build backend (package build) is a
-- parameter: the chunks that it writes to its log, and its outcome, which may depend on whether the
-- writes went through.
pub mod Outcomes
pub mod Claims
pub mod Interleaving
pub mod Delivery
pub mod Ends
use uran_api.Prelude.{
  ℕ, ℤ, pos, negsuc, String, Text, Bool, true, false, Option, none, some, List, [], ◌∷◌, ◌++◌,
  if◌then◌else◌, ◌==◌, text_eq,
}
use uran_api.Exec.{Result, ok, err, Exec, pure, raise, ◌>>=◌, ◌>>◌, catch, try, or_raise, guard}
use uran_api.Go.Text.{codes}
use uran_api.Go.Decimal.{format_nat, parse_int}
use uran_api.Deploy.{status_deploying, status_failed, build_running, build_succeeded, build_failed}
use uran_api.Store.{Error, World, Query, deploy_channel, deployment_channel, notify}
use uran_api.Task.{Stop, stopped, Task}
use uran_api.Go.Map.{put}
use uran_api.Store.Models.{Service, Deploy, Build, EnvVar}
use uran_api.Store.Deploys.{
  deploy_by_id, service_by_id, build_by_deploy_id, claim_queued_deploy, start_build, finish_build,
  append_build_log, set_deploy_image, update_deploy_status, queued_deploy_ids,
}
use uran_api.Store.Services.{list_env_vars}

-- internal/build: `Request`.
pub record Request : Type 0 where
  pub repo_url : Text
  pub ref : Text
  pub image : Text
  pub type : String
  pub build_args : List (Text × Text)

-- internal/build: `Builder`. The error of a failed build is its text.
pub record Backend : Type 0 where
  pub chunks : Request → List Text
  pub outcome : Request → List (Result Error Unit) → Result Text Text

-- The range loop of `buildArgs`.
unfoldable pub collect_args : List (Text × Text) → List EnvVar → List (Text × Text)
unfolding put
collect_args out [] = out
collect_args out (v ∷ vs) = collect_args (if v.build_time then put v.key v.value out else out) vs

args_of : Result Error (List EnvVar) → List (Text × Text)
args_of (err e) = []
args_of (ok vars) = collect_args [] vars

unfoldable pub build_args : ℕ → Task (List (Text × Text))
unfolding args_of collect_args
build_args service_id = do vars ← try (list_env_vars service_id); pure (args_of vars)

-- Each chunk is one `dbLogWriter.Write`.
unfoldable pub write_chunks : ℕ → List Text → Task (List (Result Error Unit))
write_chunks build_id [] = pure []
write_chunks build_id (c ∷ cs) = do
  r ← try (append_build_log build_id c)
  rs ← write_chunks build_id cs
  pure (r ∷ rs)

-- Best effort: errors are logged.
unfoldable pub fail : ℕ → ℕ → Task Unit
fail deploy_id build_id = do
  try (finish_build build_id build_failed)
  try (update_deploy_status deploy_id status_failed)
  pure tt

-- What follows a build that produced an image.
unfoldable pub ship : ℕ → ℕ → Text → Task Unit
unfolding fail
ship deploy_id build_id image = do
  catch (set_deploy_image deploy_id image) (λ _. fail deploy_id build_id >> raise stopped)
  try (finish_build build_id build_succeeded)
  or_raise (update_deploy_status deploy_id status_deploying) stopped
  try (notify deployment_channel (format_nat deploy_id))
  pure tt

unfoldable pub settle : ℕ → ℕ → Result Text Text → Task Unit
unfolding fail ship
settle deploy_id build_id (ok image) = ship deploy_id build_id image
settle deploy_id build_id (err why) = do
  try (append_build_log build_id (codes "\nBUILD FAILED: " ++ (why ++ codes "\n")))
  fail deploy_id build_id

module _ (backend : Backend) (registry : Text) where
  image_of : ℕ → ℕ → Text
  image_of service_id deploy_id =
      registry ++ (codes "/svc-" ++ (format_nat service_id ++ (codes ":" ++ format_nat deploy_id)))

  -- From the call of the backend on.
  unfoldable pub run_build : ℕ → Deploy → Service → Build → Task Unit
  unfolding image_of build_args write_chunks settle
  run_build deploy_id d svc b = do
    args ← build_args svc.id
    let request : Request = record {
      repo_url = svc.repo_url;
      ref = d.commit_sha;
      image = image_of svc.id deploy_id;
      type = svc.type;
      build_args = args;
    }
    written ← write_chunks b.id (backend.chunks request)
    settle deploy_id b.id (backend.outcome request written)

  -- The atomic claim lets one worker through.
  unfoldable pub build_claimed : ℕ → Deploy → Service → Build → Task Unit
  unfolding run_build
  build_claimed deploy_id d svc b = do
    claimed ← or_raise (claim_queued_deploy deploy_id) stopped
    guard claimed stopped
    or_raise (start_build b.id build_running) stopped
    run_build deploy_id d svc b

  unfoldable pub process : ℕ → Task Unit
  unfolding build_claimed
  process deploy_id = do
    d ← or_raise (deploy_by_id deploy_id) stopped
    s ← or_raise (service_by_id d.service_id) stopped
    b ← or_raise (build_by_deploy_id deploy_id) stopped
    build_claimed deploy_id d s.0 b

  for_each : List ℕ → Task Unit
  unfolding process
  for_each [] = pure tt
  for_each (id ∷ ids) = do try {F = Stop} (process id); for_each ids

  sweep_found : Result Error (List ℕ) → Task Unit
  unfolding for_each
  sweep_found (err e) = pure tt
  sweep_found (ok ids) = for_each ids

  -- The sweep at the start of `Run`, its goroutines one after the other.
  unfoldable pub sweep : Task Unit
  unfolding sweep_found
  sweep = do ids ← try queued_deploy_ids; sweep_found ids

  parsed : Option ℤ → Task Unit
  unfolding process
  parsed (some (pos id)) = process id
  parsed (some (negsuc n)) = process 0
  parsed none = pure tt

  -- The handler of the deploy channel; no row has a negative id or the id 0.
  unfoldable pub on_deploy : Text → Task Unit
  unfolding parsed
  on_deploy payload = parsed (parse_int payload)
