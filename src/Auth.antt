-- ===== src/Auth.antt =====
-- internal/auth/auth.go. The hash of passwords (bcrypt), that of API tokens (SHA-256 in hexadecimal)
-- and the random digits of a new token are parameters; `none` is an error of theirs.
pub mod Bearer
pub mod Tokens
use uran_api.Prelude.{
  ℕ, Text, Bool, Option, none, some, [], ◌∷◌, ◌++◌, if◌then◌else◌, ◌==◌, text_eq,
}
use uran_api.Exec.{Exec, ok, err, pure, raise, ◌>>=◌, ◌>>◌, or_raise, guard, try}
use uran_api.Go.Text.{codes, cut_prefix, has_prefix}
use uran_api.Go.Unicode.{Unicode, trim_space}
use uran_api.Store.{World, Error, Query}
use uran_api.Store.Models.{User}
use uran_api.Store.Accounts.{user_by_session, user_by_api_token, touch_api_token}

abbrev pub api_token_prefix : Text
api_token_prefix = codes "uran_pat_"

-- `NewAPIToken`, from the random digits.
unfoldable pub new_api_token : Option Text → Option Text
new_api_token none = none
new_api_token (some digits) = some (api_token_prefix ++ digits)

pub data Unauthorized : Type 0 where
  unauthorized : Unauthorized

module _ (u : Unicode) (hash_api_token : Text → Text) where
  -- What `bearerToken` makes of what follows the prefix of the header.
  unfoldable pub trimmed : Option Text → Text
  unfolding trim_space
  trimmed none = []
  trimmed (some after) = trim_space u after

  unfoldable pub bearer_token : Text → Text
  unfolding trimmed cut_prefix
  bearer_token header = trimmed (cut_prefix (codes "Bearer ") header)

  -- The time of use is best effort.
  unfoldable pub user_by_token : Text → Query User
  user_by_token token = do
    user ← user_by_api_token (hash_api_token token)
    try {F = Error} (touch_api_token (hash_api_token token))
    pure user

  unfoldable pub resolve : Text → Query User
  unfolding user_by_token
  resolve token =
      if has_prefix api_token_prefix token then user_by_token token else user_by_session token

  -- `Middleware`, up to the call of the next handler with the user.
  unfoldable pub middleware : Text → Exec World Unauthorized User
  unfolding bearer_token resolve
  middleware header =
      let token = bearer_token header in
      if token == [] then raise unauthorized else or_raise (resolve token) unauthorized
