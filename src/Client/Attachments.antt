-- ===== src/Client/Attachments.antt =====
-- cmd/uran/commands.go: the commands on the domains and the environment of a service, on the flags and
-- the arguments that were parsed.
use uran_api.Prelude.{ℤ, Text, Bool, Option, none, some, List, [], ◌∷◌, ◌++◌, text_eq, nat_eq}
use uran_api.Exec.{pure, raise, ◌>>=◌, ◌>>◌, guard}
use uran_api.Go.Text.{codes, cut}
use uran_api.Go.Decimal.{format_int}
use uran_api.Go.Unicode.{Unicode}
use uran_api.Go.Json.{Json, text, boolean, obj, end, member}
use uran_api.Client.{
  Cli, misused, authed, ask, is_set, one_argument, a_number, a_text, a_boolean, list,
}

-- `strings.Contains(s, "=")` and `strings.Cut`
abbrev key_value : Option (Text × Text) → Cli (Text × Text)
key_value none = raise misused
key_value (some kv) = pure kv

module _ (u : Unicode) where
  unfoldable pub cmd_domain_list : ℤ → Cli (Option Json)
  cmd_domain_list service = do
    guard (is_set service) misused
    c ← authed
    ask u c "GET" (codes "/v1/services/" ++ (format_int service ++ (codes "/domains"))) none
        (some (list (("id", a_number) ∷ ("domain", a_text) ∷ [])))

  unfoldable pub cmd_domain_add : ℤ → List Text → Cli (Option Json)
  unfolding one_argument
  cmd_domain_add service rest = do
    guard (is_set service) misused
    arg ← one_argument rest
    c ← authed
    ask u c "POST" (codes "/v1/services/" ++ (format_int service ++ (codes "/domains")))
        (some (obj (member "domain" (text arg) end))) none

  unfoldable pub cmd_domain_rm : ℤ → List Text → Cli (Option Json)
  unfolding one_argument
  cmd_domain_rm service rest = do
    guard (is_set service) misused
    arg ← one_argument rest
    c ← authed
    ask u c "DELETE" (codes "/v1/services/" ++ (format_int service ++ (codes "/domains/" ++ arg)))
        none none

  unfoldable pub cmd_env_list : ℤ → Cli (Option Json)
  cmd_env_list service = do
    guard (is_set service) misused
    c ← authed
    ask u c "GET" (codes "/v1/services/" ++ (format_int service ++ (codes "/env"))) none
        (some (list (("key", a_text) ∷ ("value", a_text) ∷ ("secret", a_boolean) ∷ [])))

  unfoldable pub cmd_env_set : ℤ → Bool → Bool → List Text → Cli (Option Json)
  unfolding one_argument cut
  cmd_env_set service secret build rest = do
    guard (is_set service) misused
    arg ← one_argument rest
    kv ← key_value (cut b'=' arg)
    c ← authed
    ask u c "POST" (codes "/v1/services/" ++ (format_int service ++ (codes "/env")))
        (some (
          obj (
            member "key" (text kv.0) (
              member "value" (text kv.1)
                (member "secret" (boolean secret) (member "build_time" (boolean build) end))))))
        none

  unfoldable pub cmd_env_rm : ℤ → List Text → Cli (Option Json)
  unfolding one_argument
  cmd_env_rm service rest = do
    guard (is_set service) misused
    arg ← one_argument rest
    c ← authed
    ask u c "DELETE" (codes "/v1/services/" ++ (format_int service ++ (codes "/env/" ++ arg))) none
        none
