-- ===== src/Api/Accounts.antt =====
-- internal/api/auth_handlers.go and token_handlers.go. `hash_password` and `check_password` are
-- bcrypt, `hash_api_token` is SHA-256, `fresh` the random digits for a token (`none` when there are
-- none); `ttl` is the lifetime of a session, in the unit of `Db.now`, on the clock of the database.
pub mod Sessions
pub mod Logout
use uran_api.Prelude.{
  take, ℕ, ℤ, pos, ◌+◌, Text, Bool, true, false, not, ◌&&◌, ◌||◌, Option, none, some, List, [], ◌∷◌,
  if◌then◌else◌, ◌==◌, text_eq, length, ltb,
}
use uran_api.Exec.{
  Exec, Result, ok, err, pure, raise, lift, ◌>>=◌, ◌>>◌, catch, try, or_raise, guard,
}
use uran_api.Go.Text.{codes, cut_prefix, byte_length}
use uran_api.Go.Unicode.{Unicode, trim_space, lower}
use uran_api.Store.{World}
use uran_api.Store.Models.{User, ApiToken}
use uran_api.Store.Members.{user_by_email}
use uran_api.Store.Accounts.{
  create_user, create_session, delete_session, create_api_token, list_api_tokens, delete_api_token,
}
use uran_api.Auth.{api_token_prefix, new_api_token}
use uran_api.Api.Access.{Request, Refusal, refusal, Handler, path_int, decoded}

pub record Register : Type 0 where
  pub email : Text
  pub password : Text
  pub name : Text

pub record Login : Type 0 where
  pub email : Text
  pub password : Text

pub record AuthBody : Type 0 where
  pub token : Text
  pub user : User

pub record TokenBody : Type 0 where
  pub api_token : ApiToken
  pub token : Text

-- `time.Now()`, on the clock of the database.
unfoldable pub clock : Handler ℕ
clock w = (ok w.db.now, w)

-- What may fail outside the store.
unfoldable pub given : {A : Type 0} → Option A → Refusal → Handler A
given none why = raise why
given (some a) why = pure a

unfoldable pub issue_session : Option Text → ℕ → User → Handler AuthBody
unfolding clock given
issue_session fresh ttl user = do
  token ← given fresh (refusal 500 (codes "could not create session"))
  now ← clock
  or_raise (create_session token user.id (now + ttl))
      (refusal 500 (codes "could not persist session"))
  pure (record { token = token; user = user })

-- `r.Header.Get("Authorization")` without its prefix, if it has it.
unfoldable pub trim_bearer : Text → Text
trim_bearer header = elim (cut_prefix (codes "Bearer ") header) [
  | none ↦ header
  | some after ↦ after
]

module _ (u : Unicode) where
  unfoldable pub normal_email : Text → Text
  normal_email email = trim_space u (lower u email)

  unfoldable pub handle_register :
      (Text → Option Text) → Option Text → ℕ → Option Register → Handler AuthBody
  unfolding normal_email issue_session given
  handle_register hash_password fresh ttl body = do
    req ← decoded body (codes "invalid body")
    guard (not (normal_email req.email == [] || ltb (byte_length req.password) 8))
        (refusal 400 (codes "email required and password must be at least 8 chars"))
    hash ← given (hash_password req.password) (refusal 500 (codes "could not hash password"))
    user ←
        or_raise (create_user (normal_email req.email) hash req.name)
          (refusal 409 (codes "email already registered"))
    issue_session fresh ttl user

  unfoldable pub handle_login :
      (Text → Text → Bool) → Option Text → ℕ → Option Login → Handler AuthBody
  unfolding normal_email issue_session
  handle_login check_password fresh ttl body = do
    req ← decoded body (codes "invalid body")
    user ←
        or_raise (user_by_email (normal_email req.email))
          (refusal 401 (codes "invalid credentials"))
    guard (check_password user.password_hash req.password)
        (refusal 401 (codes "invalid credentials"))
    issue_session fresh ttl user

  -- The error of the deletion is dropped.
  unfoldable pub handle_logout : Text → Handler Unit
  unfolding trim_bearer
  handle_logout header =
      if trim_bearer header == []
      then pure tt
      else (do try {F = Refusal} (delete_session (trim_space u (trim_bearer header))); pure tt)

  unfoldable pub handle_create_token :
      (Text → Text) → Option Text → Request → Option Text → Handler TokenBody
  unfolding given
  handle_create_token hash_api_token fresh r body = do
    name ← given body (refusal 400 (codes "name required"))
    guard (not (trim_space u name == [])) (refusal 400 (codes "name required"))
    token ← given (new_api_token fresh) (refusal 500 (codes "could not generate token"))
    t ←
        or_raise
          (create_api_token r.user_id name (hash_api_token token)
            (take (length api_token_prefix + 8) token))
          (refusal 500 (codes "could not create token"))
    pure (record { api_token = t; token = token })

unfoldable pub handle_list_tokens : Request → Handler (List ApiToken)
handle_list_tokens r =
    or_raise (list_api_tokens r.user_id) (refusal 500 (codes "could not list tokens"))

unfoldable pub handle_delete_token : Request → Text → Handler Unit
handle_delete_token r param = do
  id ← path_int param (codes "invalid token id")
  deleted ← or_raise (delete_api_token r.user_id id) (refusal 500 (codes "could not delete token"))
  guard deleted (refusal 404 (codes "token not found"))
