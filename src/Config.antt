-- ===== src/Config.antt =====
-- internal/config/config.go. `environment` is `os.Getenv`, which gives the empty text for a variable
-- that is not set; `parse_duration` is `time.ParseDuration`, with the text of its error. A duration
-- is in nanoseconds. What a loader returns beside an error is not used, and left out.
pub mod Problems
use uran_api.Prelude.{ℤ, pos, Text, Bool, List, [], ◌∷◌, ◌++◌, ◌==◌, text_eq, if◌then◌else◌}
use uran_api.Exec.{Exec, Result, ok, err, pure, ◌>>=◌, ◌>>◌}
use uran_api.Go.Text.{codes, join}
use uran_api.Go.Unicode.{Unicode, trim_space}

pub record ApiConfig : Type 0 where
  pub addr : Text
  pub database_url : Text
  pub session_ttl : ℤ
  pub shutdown_timeout : ℤ
  pub env : Text
  pub github_webhook_secret : Text
  pub kubeconfig : Text
  pub github_client_id : Text
  pub github_client_secret : Text
  pub base_domain : Text

pub record BuilderConfig : Type 0 where
  pub database_url : Text
  pub env : Text
  pub registry : Text
  pub build_workdir : Text

pub record ControllerConfig : Type 0 where
  pub database_url : Text
  pub env : Text
  pub kubeconfig : Text
  pub base_domain : Text
  pub cert_issuer : Text
  pub backup_endpoint : Text
  pub backup_bucket : Text
  pub backup_access_key : Text
  pub backup_secret_key : Text

-- The loader's state is the list of its errors, the last one last.
abbrev pub Loader : Type 0 → Type 0
Loader A = Exec (List Text) Text A

unfoldable pub append : Text → Loader Unit
append e errs = (ok tt, errs ++ (e ∷ []))

unfoldable pub required : Text → Text
required name = name ++ codes " is required"

unfoldable pub not_valid : Text → Text → Text
not_valid name why = name ++ (codes " is not a valid duration: " ++ why)

-- `err`, with the value that is returned beside it.
unfoldable pub checked : {A : Type 0} → A → Loader A
checked a [] = (ok a, [])
checked a (e ∷ errs) =
    (err (codes "invalid configuration:\n  - " ++ join (codes "\n  - ") (e ∷ errs)), e ∷ errs)

module _ (u : Unicode) (environment : Text → Text) where
  unfoldable pub str : Text → Loader Text
  unfolding append required
  str name = do
    let v = environment name
    if trim_space u v == [] then append (required name) else pure tt
    pure v

  module _ (parse_duration : Text → Result Text ℤ) where
    -- A duration that does not parse is zero, as one that is not there.
    unfoldable pub parsed : Text → Result Text ℤ → Loader ℤ
    unfolding append not_valid
    parsed name (ok d) = pure d
    parsed name (err why) = append (not_valid name why) >> pure (pos 0)

    unfoldable pub dur : Text → Loader ℤ
    unfolding append required parsed
    dur name =
        let v = environment name in
        if trim_space u v == []
        then append (required name) >> pure (pos 0)
        else parsed name (parse_duration v)

    unfoldable pub load_api : Loader ApiConfig
    unfolding str dur checked
    load_api = do
      addr ← str (codes "URAN_ADDR")
      database_url ← str (codes "URAN_DATABASE_URL")
      session_ttl ← dur (codes "URAN_SESSION_TTL")
      shutdown_timeout ← dur (codes "URAN_SHUTDOWN_TIMEOUT")
      env ← str (codes "URAN_ENV")
      github_webhook_secret ← str (codes "URAN_GITHUB_WEBHOOK_SECRET")
      kubeconfig ← str (codes "URAN_KUBECONFIG")
      github_client_id ← str (codes "URAN_GITHUB_CLIENT_ID")
      github_client_secret ← str (codes "URAN_GITHUB_CLIENT_SECRET")
      base_domain ← str (codes "URAN_BASE_DOMAIN")
      checked (record {
        addr = addr;
        database_url = database_url;
        session_ttl = session_ttl;
        shutdown_timeout = shutdown_timeout;
        env = env;
        github_webhook_secret = github_webhook_secret;
        kubeconfig = kubeconfig;
        github_client_id = github_client_id;
        github_client_secret = github_client_secret;
        base_domain = base_domain;
      })

  unfoldable pub load_builder : Loader BuilderConfig
  unfolding str checked
  load_builder = do
    database_url ← str (codes "URAN_DATABASE_URL")
    env ← str (codes "URAN_ENV")
    registry ← str (codes "URAN_REGISTRY")
    build_workdir ← str (codes "URAN_BUILD_WORKDIR")
    checked (record {
      database_url = database_url;
      env = env;
      registry = registry;
      build_workdir = build_workdir;
    })

  unfoldable pub load_controller : Loader ControllerConfig
  unfolding str checked
  load_controller = do
    database_url ← str (codes "URAN_DATABASE_URL")
    env ← str (codes "URAN_ENV")
    kubeconfig ← str (codes "URAN_KUBECONFIG")
    base_domain ← str (codes "URAN_BASE_DOMAIN")
    cert_issuer ← str (codes "URAN_CERT_ISSUER")
    backup_endpoint ← str (codes "URAN_BACKUP_ENDPOINT")
    backup_bucket ← str (codes "URAN_BACKUP_BUCKET")
    backup_access_key ← str (codes "URAN_BACKUP_ACCESS_KEY")
    backup_secret_key ← str (codes "URAN_BACKUP_SECRET_KEY")
    checked (record {
      database_url = database_url;
      env = env;
      kubeconfig = kubeconfig;
      base_domain = base_domain;
      cert_issuer = cert_issuer;
      backup_endpoint = backup_endpoint;
      backup_bucket = backup_bucket;
      backup_access_key = backup_access_key;
      backup_secret_key = backup_secret_key;
    })
