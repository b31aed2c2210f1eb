-- ===== src/Client/Databases.antt =====
-- cmd/uran/commands.go: the commands on databases, on the flags and the arguments that were parsed.
use uran_api.Prelude.{
  ℤ, String, Text, Bool, Option, none, some, List, [], ◌∷◌, ◌++◌, text_eq, nat_eq,
}
use uran_api.Exec.{◌>>=◌, ◌>>◌, guard}
use uran_api.Go.Text.{codes}
use uran_api.Go.Decimal.{format_int}
use uran_api.Go.Unicode.{Unicode}
use uran_api.Go.Json.{Json, text, number, boolean, obj, end, member}
use uran_api.Client.{
  Cli, misused, authed, ask, is_set, one_argument, Kind, a_number, a_text, object, list,
}

pub record NewDatabase : Type 0 where
  pub engine : Text
  pub tier : Text
  pub instances : ℤ
  pub min : ℤ
  pub max : ℤ
  pub size : Text
  pub storage : Text
  pub pooling : Bool
  pub backups : Bool

abbrev database_view : List (String × Kind)
database_view =
    ("id", a_number)
    ∷ ("name", a_text)
    ∷ ("slug", a_text)
    ∷ ("engine", a_text)
    ∷ ("status", a_text)
    ∷ []

module _ (u : Unicode) where
  unfoldable pub cmd_db_create : ℤ → NewDatabase → List Text → Cli (Option Json)
  unfolding one_argument
  cmd_db_create project q rest = do
    guard (is_set project) misused
    arg ← one_argument rest
    c ← authed
    ask u c "POST" (codes "/v1/projects/" ++ (format_int project ++ (codes "/databases")))
        (some (
          obj (
            member "name" (text arg) (
              member "engine" (text q.engine) (
                member "tier" (text q.tier) (
                  member "instances" (number q.instances) (
                    member "min_instances" (number q.min) (
                      member "max_instances" (number q.max) (
                        member "size" (text q.size) (
                          member "storage" (text q.storage) (
                            member "pooling" (boolean q.pooling)
                              (member "backups" (boolean q.backups) end))))))))))))
        (some (object database_view))

  unfoldable pub cmd_db_scale : ℤ → ℤ → Text → Text → Cli (Option Json)
  cmd_db_scale id instances size storage = do
    guard (is_set id) misused
    c ← authed
    ask u c "POST" (codes "/v1/databases/" ++ (format_int id ++ (codes "/scale")))
        (some (
          obj (
            member "instances" (number instances)
              (member "size" (text size) (member "storage" (text storage) end)))))
        none

  unfoldable pub cmd_db_list : ℤ → Cli (Option Json)
  cmd_db_list project = do
    guard (is_set project) misused
    c ← authed
    ask u c "GET" (codes "/v1/projects/" ++ (format_int project ++ (codes "/databases"))) none
        (some (list database_view))

  unfoldable pub cmd_db_connection : ℤ → Cli (Option Json)
  cmd_db_connection id = do
    guard (is_set id) misused
    c ← authed
    ask u c "GET" (codes "/v1/databases/" ++ (format_int id ++ (codes "/connection"))) none
        (some (object (("uri", a_text) ∷ ("read_uri", a_text) ∷ ("pooled_uri", a_text) ∷ [])))

  unfoldable pub cmd_db_backup : ℤ → Cli (Option Json)
  cmd_db_backup id = do
    guard (is_set id) misused
    c ← authed
    ask u c "POST" (codes "/v1/databases/" ++ (format_int id ++ (codes "/backups"))) none none

  unfoldable pub cmd_db_backups : ℤ → Cli (Option Json)
  cmd_db_backups id = do
    guard (is_set id) misused
    c ← authed
    ask u c "GET" (codes "/v1/databases/" ++ (format_int id ++ (codes "/backups"))) none
        (some (list (("name", a_text) ∷ ("phase", a_text) ∷ ("stopped_at", a_text) ∷ [])))

  unfoldable pub cmd_db_rm : ℤ → Cli (Option Json)
  cmd_db_rm id = do
    guard (is_set id) misused
    c ← authed
    ask u c "DELETE" (codes "/v1/databases/" ++ (format_int id)) none none
