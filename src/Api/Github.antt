-- ===== src/Api/Github.antt =====
-- internal/api/github_handlers.go. The calls of GitHub are parameters: the token for a code, the login
-- and the repositories for a token; `none` is an error of the call.
use uran_api.Prelude.{
  ℕ, Text, Bool, not, ◌&&◌, Option, none, some, [], ◌++◌, ◌==◌, text_eq, if◌then◌else◌,
}
use uran_api.Exec.{pure, raise, ◌>>=◌, ◌>>◌, or_raise, guard}
use uran_api.Go.Text.{codes}
use uran_api.Go.Decimal.{format_nat}
use uran_api.Store.Models.{GithubConnection}
use uran_api.Store.Attachments.{set_github_connection, github_connection, delete_github_connection}
use uran_api.Api.Access.{Request, Refusal, refusal, Handler, path_int, decoded, authorize_org}

-- The credentials of the OAuth App; empty ones disable it.
pub record App : Type 0 where
  pub client_id : Text
  pub client_secret : Text

unfoldable pub github_enabled : App → Bool
github_enabled app = not (app.client_id == []) && not (app.client_secret == [])

pub record GithubStatus : Type 0 where
  pub enabled : Bool
  pub authorize_url : Option Text
  -- Of the account that is connected, if one is.
  pub account : Option Text

abbrev pub authorize_url : App → ℕ → Text
authorize_url app org_id =
    codes "https://github.com/login/oauth/authorize?client_id="
    ++ (app.client_id ++ (codes "&scope=repo&state=" ++ format_nat org_id))

abbrev pub account_of : Option GithubConnection → Option Text
account_of none = none
account_of (some c) = some c.account_login

unfoldable pub handle_github_status : App → Request → Text → Handler GithubStatus
unfolding github_enabled
handle_github_status app r param = do
  org_id ← path_int param (codes "invalid org id")
  authorize_org r org_id
  conn ← or_raise (github_connection org_id) (refusal 500 (codes "could not read connection"))
  pure (record {
    enabled = github_enabled app;
    authorize_url = if github_enabled app then some (authorize_url app org_id) else none;
    account = account_of conn;
  })

-- What was asked for, or the answer where there is nothing.
unfoldable pub answered : {A : Type 0} → Option A → Refusal → Handler A
answered none e = raise e
answered (some a) e = pure a

unfoldable pub handle_github_connect :
    (App → Text → Option Text)
    → (Text → Option Text)
    → App
    → Request
    → Text
    → Option Text
    → Handler Text
unfolding github_enabled answered
handle_github_connect exchange_code account_login app r param body = do
  org_id ← path_int param (codes "invalid org id")
  authorize_org r org_id
  guard (github_enabled app) (refusal 400 (codes "GitHub is not configured"))
  code ← decoded body (codes "missing code")
  guard (not (code == [])) (refusal 400 (codes "missing code"))
  token ← answered (exchange_code app code) (refusal 502 (codes "GitHub authorization failed"))
  login ← answered (account_login token) (refusal 502 (codes "could not read GitHub account"))
  or_raise (set_github_connection org_id token login)
      (refusal 500 (codes "could not save connection"))
  pure login

unfoldable pub handle_github_repos : {A : Type 0} → (Text → Option A) → Request → Text → Handler A
unfolding answered
handle_github_repos list_repos r param = do
  org_id ← path_int param (codes "invalid org id")
  authorize_org r org_id
  conn ← or_raise (github_connection org_id) (refusal 500 (codes "could not read connection"))
  c ← answered conn (refusal 400 (codes "GitHub is not connected"))
  answered (list_repos c.access_token) (refusal 502 (codes "could not list repositories"))

unfoldable pub handle_github_disconnect : Request → Text → Handler Unit
handle_github_disconnect r param = do
  org_id ← path_int param (codes "invalid org id")
  authorize_org r org_id
  or_raise (delete_github_connection org_id) (refusal 500 (codes "could not disconnect"))
