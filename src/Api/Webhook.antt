-- ===== src/Api/Webhook.antt =====
-- internal/api/webhook_handlers.go. A body that does not decode is `none`.
pub mod Matches
use uran_api.Prelude.{
  ℕ, ℤ, String, Text, Bool, true, false, not, ◌&&◌, ◌||◌, Option, none, some, List, [], ◌∷◌, ◌++◌,
  map, if◌then◌else◌, ◌==◌, nat_eq, string_eq, text_eq, any,
}
use uran_api.Exec.{Exec, Result, ok, err, pure, ◌>>=◌, ◌>>◌, try, or_raise, guard}
use uran_api.Go.Text.{codes}
use uran_api.Git.{
  PushEvent, branch, verify_signature, PullRequestEvent, should_deploy, should_teardown,
}
use uran_api.Store.{World, Error, Query, teardown_channel, notify}
use uran_api.Store.Models.{Service, Deploy}
use uran_api.Store.Repos.{services_by_repo, services_by_repo_url}
use uran_api.Api.Access.{Refusal, refusal, Handler, decoded}
use uran_api.Api.Deploys.{enqueue_deploy, enqueue_preview}
use uran_api.Api.Payload.{preview_teardown}

-- The inner loop of `dedupeServices`: `seen` holds just the ids of `out`.
unfoldable pub add_new : List ℕ → List Service → List ℕ
add_new out [] = out
add_new out (m ∷ ms) = add_new (if any (λ i. i == m.id) out then out else out ++ (m.id ∷ [])) ms

unfoldable pub dedupe_from : (Text → Query (List Service)) → List ℕ → List Text → Query (List ℕ)
unfolding add_new
dedupe_from lookup out [] = pure out
dedupe_from lookup out (url ∷ urls) =
    (if url == [] then pure [] else lookup url) >>= λ ms. dedupe_from lookup (add_new out ms) urls

unfoldable pub dedupe_services : (Text → Query (List Service)) → List Text → Query (List ℕ)
unfolding dedupe_from
dedupe_services lookup urls = dedupe_from lookup [] urls

-- What one service adds to the answer; a failure is logged and skipped.
pub record DeployBrief : Type 0 where
  pub deploy_id : ℕ
  pub service_id : ℕ
  pub commit_sha : Text

brief_of : Result Error Deploy → ℕ → List DeployBrief
brief_of (err e) id = []
brief_of (ok d) id = record { deploy_id = d.id; service_id = id; commit_sha = d.commit_sha } ∷ []

unfoldable pub push_each : Text → List ℕ → Handler (List DeployBrief)
unfolding brief_of
push_each sha [] = pure []
push_each sha (id ∷ ids) = do
  d ← try (enqueue_deploy id sha)
  rest ← push_each sha ids
  pure (brief_of d id ++ rest)

torn_down : Result Error Unit → ℕ → List DeployBrief
torn_down (err e) id = []
torn_down (ok _) id = record { deploy_id = 0; service_id = id; commit_sha = [] } ∷ []

unfoldable pub teardown_each : ℤ → List ℕ → Handler (List DeployBrief)
unfolding torn_down
teardown_each number [] = pure []
teardown_each number (id ∷ ids) = do
  sent ← try (notify teardown_channel (preview_teardown id number))
  rest ← teardown_each number ids
  pure (torn_down sent id ++ rest)

unfoldable pub preview_each : Text → ℤ → List ℕ → Handler (List DeployBrief)
unfolding brief_of
preview_each sha number [] = pure []
preview_each sha number (id ∷ ids) = do
  d ← try (enqueue_preview id sha number)
  rest ← preview_each sha number ids
  pure (brief_of d id ++ rest)

module _ (fold : Text → Text) where
  unfoldable pub handle_push : Option PushEvent → Handler (List DeployBrief)
  unfolding dedupe_services push_each
  handle_push body = do
    push ← decoded body (codes "invalid push payload")
    if branch push == []
        then pure []
        else (or_raise
              (dedupe_services (λ url. services_by_repo fold url (branch push))
                (push.clone_url ∷ push.html_url ∷ []))
              (refusal 500 (codes "could not match services"))
            >>= push_each push.after)

  unfoldable pub handle_pull_request : Option PullRequestEvent → Handler (List DeployBrief)
  unfolding dedupe_services teardown_each preview_each
  handle_pull_request body = do
    pr ← decoded body (codes "invalid pull_request payload")
    if not (should_deploy pr) && not (should_teardown pr)
        then pure []
        else (or_raise
              (dedupe_services (services_by_repo_url fold) (pr.clone_url ∷ pr.html_url ∷ []))
              (refusal 500 (codes "could not match services"))
            >>= λ ids.
                if should_teardown pr
                then teardown_each pr.number ids
                else preview_each pr.head_sha pr.number ids)

-- `sign` and the two decoders are those of the libraries; an ignored event has no deploys to report.
module _ (fold : Text → Text) (sign : Text → Text → Text) (parse_push : Text → Option PushEvent)
    (parse_pull_request : Text → Option PullRequestEvent) where
  unfoldable pub handle_github_webhook : Text → Text → Text → String → Handler (List DeployBrief)
  unfolding handle_push handle_pull_request
  handle_github_webhook secret body signature event = do
    guard (verify_signature sign secret body signature) (refusal 401 (codes "invalid signature"))
    if event == "push" || event == ""
        then handle_push fold (parse_push body)
        else if event == "pull_request"
        then handle_pull_request fold (parse_pull_request body)
        else pure []
