-- ===== src/Client/Orgs.antt =====
-- cmd/uran/commands.go: the commands on the account and on orgs, on the flags that were parsed.
use uran_api.Prelude.{
  ℤ, String, Text, not, ◌&&◌, ◌||◌, Option, none, some, List, [], ◌∷◌, ◌++◌, ◌==◌, text_eq, nat_eq,
  if◌then◌else◌,
}
use uran_api.Exec.{pure, ◌>>=◌, ◌>>◌, guard}
use uran_api.Go.Text.{codes}
use uran_api.Go.Decimal.{format_int}
use uran_api.Go.Unicode.{Unicode}
use uran_api.Go.Json.{Json, text, obj, end, member, value_of}
use uran_api.Client.{
  Cli, misused, authed, ask, save, new_client, is_set, error_text, Kind, a_number, a_text, object,
  list,
}

abbrev token_view : List (String × Kind)
token_view = ("id", a_number) ∷ ("name", a_text) ∷ ("prefix", a_text) ∷ ("token", a_text) ∷ []

abbrev audit_view : List (String × Kind)
audit_view =
    ("method", a_text) ∷ ("path", a_text) ∷ ("status", a_number) ∷ ("created_at", a_text) ∷ []

-- What a login takes from the answer.
abbrev session_token : Option Json → Text
session_token (some (obj ms)) = error_text (value_of "token" ms)
session_token _ = []

module _ (u : Unicode) where
  unfoldable pub sign_in : Text → Text → Text → Cli (Option Json)
  unfolding save value_of
  sign_in api email password = do
    guard (not (email == [] || password == [])) misused
    answer ←
        ask u (new_client (record { api_url = api; token = [] })) "POST" (codes "/v1/auth/login")
          (some (obj (member "email" (text email) (member "password" (text password) end))))
          (some (object (("token", a_text) ∷ [])))
    save (record { api_url = api; token = session_token answer })
    pure none

  unfoldable pub cmd_login : Text → Text → Text → Text → Cli (Option Json)
  unfolding sign_in save
  cmd_login api email password token = do
    guard (not (api == [])) misused
    if not (token == [])
        then (do save (record { api_url = api; token = token }); pure none)
        else sign_in api email password

  unfoldable pub cmd_token_create : Text → Cli (Option Json)
  cmd_token_create name = do
    guard (not (name == [])) misused
    c ← authed
    ask u c "POST" (codes "/v1/tokens") (some (obj (member "name" (text name) end)))
        (some (object token_view))

  unfoldable pub cmd_token_list : Cli (Option Json)
  cmd_token_list = do c ← authed; ask u c "GET" (codes "/v1/tokens") none (some (list token_view))

  unfoldable pub cmd_token_rm : ℤ → Cli (Option Json)
  cmd_token_rm id = do
    guard (is_set id) misused
    c ← authed
    ask u c "DELETE" (codes "/v1/tokens/" ++ (format_int id)) none none

  unfoldable pub cmd_whoami : Cli (Option Json)
  cmd_whoami = do c ← authed; ask u c "GET" (codes "/v1/me") none (some (object []))

  unfoldable pub cmd_audit : Cli (Option Json)
  cmd_audit = do c ← authed; ask u c "GET" (codes "/v1/audit") none (some (list audit_view))

  unfoldable pub cmd_registry_list : ℤ → Cli (Option Json)
  cmd_registry_list org = do
    guard (is_set org) misused
    c ← authed
    ask u c "GET" (codes "/v1/orgs/" ++ (format_int org ++ (codes "/registry-credentials"))) none
        (some (list (("id", a_number) ∷ ("registry", a_text) ∷ ("username", a_text) ∷ [])))

  unfoldable pub cmd_registry_add : ℤ → Text → Text → Text → Cli (Option Json)
  cmd_registry_add org registry username password = do
    guard (is_set org && (not (registry == []) && (not (username == []) && not (password == []))))
        misused
    c ← authed
    ask u c "POST" (codes "/v1/orgs/" ++ (format_int org ++ (codes "/registry-credentials")))
        (some (
          obj (
            member "registry" (text registry)
              (member "username" (text username) (member "password" (text password) end)))))
        none

  unfoldable pub cmd_registry_rm : ℤ → ℤ → Cli (Option Json)
  cmd_registry_rm org id = do
    guard (is_set org && is_set id) misused
    c ← authed
    ask u c "DELETE"
        (codes "/v1/orgs/"
          ++ (format_int org ++ (codes "/registry-credentials/" ++ (format_int id))))
        none none

  unfoldable pub cmd_member_list : ℤ → Cli (Option Json)
  cmd_member_list org = do
    guard (is_set org) misused
    c ← authed
    ask u c "GET" (codes "/v1/orgs/" ++ (format_int org ++ (codes "/members"))) none
        (some (list (("user_id", a_number) ∷ ("email", a_text) ∷ ("role", a_text) ∷ [])))

  unfoldable pub cmd_member_add : ℤ → Text → Text → Cli (Option Json)
  cmd_member_add org email role = do
    guard (is_set org && not (email == [])) misused
    c ← authed
    ask u c "POST" (codes "/v1/orgs/" ++ (format_int org ++ (codes "/members")))
        (some (obj (member "email" (text email) (member "role" (text role) end)))) none

  unfoldable pub cmd_member_set_role : ℤ → ℤ → Text → Cli (Option Json)
  cmd_member_set_role org user role = do
    guard (is_set org && (is_set user && not (role == []))) misused
    c ← authed
    ask u c "PATCH"
        (codes "/v1/orgs/" ++ (format_int org ++ (codes "/members/" ++ (format_int user))))
        (some (obj (member "role" (text role) end))) none

  unfoldable pub cmd_member_rm : ℤ → ℤ → Cli (Option Json)
  cmd_member_rm org user = do
    guard (is_set org && is_set user) misused
    c ← authed
    ask u c "DELETE"
        (codes "/v1/orgs/" ++ (format_int org ++ (codes "/members/" ++ (format_int user)))) none
        none
