-- ===== src/Git.antt =====
-- internal/git/webhook.go. The decoded events; `sign` is hex over HMAC-SHA256 of a body by a secret.
pub mod Oauth
use uran_api.Prelude.{ℤ, String, Text, Bool, false, ◌||◌, none, some, [], ◌==◌, string_eq, text_eq}
use uran_api.Go.Text.{codes, cut_prefix}

pub record PushEvent : Type 0 where
  pub ref : Text
  pub after : Text
  pub html_url : Text
  pub clone_url : Text

-- Empty for a ref that is no branch.
unfoldable pub branch : PushEvent → Text
branch p = elim (cut_prefix (codes "refs/heads/") p.ref) [ some after ↦ after | none ↦ [] ]

unfoldable pub verify_signature : (Text → Text → Text) → Text → Text → Text → Bool
verify_signature sign secret body sig_header = elim (cut_prefix (codes "sha256=") sig_header) [
  | none ↦ false
  | some want ↦ sign secret body == want
]

pub record PullRequestEvent : Type 0 where
  pub action : String
  pub number : ℤ
  pub head_sha : Text
  pub html_url : Text
  pub clone_url : Text

unfoldable pub should_deploy : PullRequestEvent → Bool
should_deploy p = p.action == "opened" || (p.action == "synchronize" || p.action == "reopened")

unfoldable pub should_teardown : PullRequestEvent → Bool
should_teardown p = p.action == "closed"
