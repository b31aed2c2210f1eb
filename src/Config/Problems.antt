-- ===== src/Config/Problems.antt =====
-- internal/config/config.go: what the loaders report.
use uran_api.Prelude.{
  ℤ, pos, Text, Bool, Bool-cases, inl, inr, ◌≡◌, refl, sym, ap, ◌∙◌, List, [], ◌∷◌, ◌++◌, ◌==◌,
  text_eq, if◌then◌else◌,
}
use mathlib.Core.List.{append_assoc, append-nil}
use uran_api.Exec.{Result, ok, err, pure, ◌>>=◌}
use uran_api.Go.Text.{codes, join}
use uran_api.Go.Unicode.{Unicode, trim_space}
use uran_api.Config.{
  ApiConfig, BuilderConfig, ControllerConfig, Loader, append, required, not_valid, checked, str,
  parsed, dur, load_api, load_builder, load_controller,
}

-- A variable that a process needs.
pub data Variable : Type 0 where
  text duration : Text → Variable

-- The configuration when there is nothing to say, and an error that says all there is otherwise.
abbrev pub reported : {C : Type 0} → C → List Text → Result Text C
reported c [] = ok c
reported c (p ∷ ps) = err (codes "invalid configuration:\n  - " ++ join (codes "\n  - ") (p ∷ ps))

same_list :
    {A : Type 0} (a : A) (errs : List Text)
    → pure {S = List Text} {E = Text} a errs ≡ (ok a, errs ++ [])
unfolding pure
same_list a errs = ap (λ l. (ok a, l)) (sym (append-nil errs))

module _ (u : Unicode) (environment : Text → Text) (parse_duration : Text → Result Text ℤ) where
  missing : Text → Bool
  missing name = trim_space u (environment name) == []

  parse_problem : Text → Result Text ℤ → List Text
  parse_problem name (ok d) = []
  parse_problem name (err why) = not_valid name why ∷ []

  -- What there is to say of a variable.
  problem : Variable → List Text
  unfolding missing parse_problem
  problem (text name) = if missing name then required name ∷ [] else []
  problem (duration name) =
      if missing name
      then required name ∷ []
      else parse_problem name (parse_duration (environment name))

  unfoldable pub problems : List Variable → List Text
  unfolding problem
  problems [] = []
  problems (v ∷ vs) = problem v ++ problems vs

  duration_or_zero : Result Text ℤ → ℤ
  duration_or_zero (ok d) = d
  duration_or_zero (err why) = pos 0

  unfoldable pub duration_of : Text → ℤ
  unfolding missing duration_or_zero
  duration_of name =
      if missing name then pos 0 else duration_or_zero (parse_duration (environment name))

  -- A lookup gives a value and adds what there is to say.
  Reads : {A : Type 0} → Loader A → A → List Text → Type 0
  Reads m a ps = (errs : List Text) → m errs ≡ (ok a, errs ++ ps)

  str-Reads :
      (name : Text) → Reads (str u environment name) (environment name) (problem (text name))
  unfolding Reads str problem missing append pure ◌>>=◌
  str-Reads name errs = elim (Bool-cases (trim_space u (environment name) == [])) [
    | inl h ↦ rw h refl
    | inr h ↦ rw h (same_list (environment name) errs)
  ]

  parsed-Reads :
      (name : Text) (r : Result Text ℤ)
      → Reads
          (parsed u environment parse_duration name r)
          (duration_or_zero r)
          (parse_problem name r)
  unfolding Reads parsed parse_problem duration_or_zero append pure ◌>>=◌
  parsed-Reads name (ok d) errs = same_list d errs
  parsed-Reads name (err why) errs = refl

  dur-Reads :
      (name : Text)
      → Reads (dur u environment parse_duration name) (duration_of name) (problem (duration name))
  unfolding Reads dur problem duration_of missing append pure ◌>>=◌
  dur-Reads name errs = elim (Bool-cases (trim_space u (environment name) == [])) [
    | inl h ↦ rw h refl
    | inr h ↦ rw h (parsed-Reads name (parse_duration (environment name)) errs)
  ]

  -- A loader that reads its variables and then checks the errors.
  Loads : {C : Type 0} → Loader C → C → List Text → Type 0
  Loads m c ps = (errs : List Text) → m errs ≡ checked c (errs ++ ps)

  Loads-checked : {C : Type 0} (c : C) → Loads (checked c) c []
  unfolding Loads
  Loads-checked c errs = ap (checked c) (sym (append-nil errs))

  Loads-bind :
      {A C : Type 0} (m : Loader A) (f : A → Loader C) (a : A) (c : C) (ps qs : List Text)
      → Reads m a ps
      → Loads (f a) c qs
      → Loads (m >>= f) c (ps ++ qs)
  unfolding Loads Reads ◌>>=◌
  Loads-bind m f a c ps qs reads loads errs =
      rw (reads errs) (loads (errs ++ ps) ∙ ap (checked c) (append_assoc errs ps qs))

  abbrev pub builder_variables : List Variable
  builder_variables =
      text (codes "URAN_DATABASE_URL")
      ∷ text (codes "URAN_ENV")
      ∷ text (codes "URAN_REGISTRY")
      ∷ text (codes "URAN_BUILD_WORKDIR")
      ∷ []

  abbrev pub builder_config : BuilderConfig
  builder_config = record {
    database_url = environment (codes "URAN_DATABASE_URL");
    env = environment (codes "URAN_ENV");
    registry = environment (codes "URAN_REGISTRY");
    build_workdir = environment (codes "URAN_BUILD_WORKDIR");
  }

  load_builder-Loads :
      Loads (load_builder u environment) builder_config (problems builder_variables)
  unfolding load_builder problems
  load_builder-Loads = Loads-bind _ _ _ _ _ _ (str-Reads _) (
      Loads-bind _ _ _ _ _ _ (str-Reads _) (
        Loads-bind _ _ _ _ _ _ (str-Reads _)
          (Loads-bind _ _ _ _ _ _ (str-Reads _) (Loads-checked _))))

  abbrev pub api_variables : List Variable
  api_variables =
      text (codes "URAN_ADDR")
      ∷ text (codes "URAN_DATABASE_URL")
      ∷ duration (codes "URAN_SESSION_TTL")
      ∷ duration (codes "URAN_SHUTDOWN_TIMEOUT")
      ∷ text (codes "URAN_ENV")
      ∷ text (codes "URAN_GITHUB_WEBHOOK_SECRET")
      ∷ text (codes "URAN_KUBECONFIG")
      ∷ text (codes "URAN_GITHUB_CLIENT_ID")
      ∷ text (codes "URAN_GITHUB_CLIENT_SECRET")
      ∷ text (codes "URAN_BASE_DOMAIN")
      ∷ []

  abbrev pub api_config : ApiConfig
  api_config = record {
    addr = environment (codes "URAN_ADDR");
    database_url = environment (codes "URAN_DATABASE_URL");
    session_ttl = duration_of (codes "URAN_SESSION_TTL");
    shutdown_timeout = duration_of (codes "URAN_SHUTDOWN_TIMEOUT");
    env = environment (codes "URAN_ENV");
    github_webhook_secret = environment (codes "URAN_GITHUB_WEBHOOK_SECRET");
    kubeconfig = environment (codes "URAN_KUBECONFIG");
    github_client_id = environment (codes "URAN_GITHUB_CLIENT_ID");
    github_client_secret = environment (codes "URAN_GITHUB_CLIENT_SECRET");
    base_domain = environment (codes "URAN_BASE_DOMAIN");
  }

  load_api-Loads : Loads (load_api u environment parse_duration) api_config (problems api_variables)
  unfolding load_api problems
  load_api-Loads = Loads-bind _ _ _ _ _ _ (str-Reads _) (
      Loads-bind _ _ _ _ _ _ (str-Reads _) (
        Loads-bind _ _ _ _ _ _ (dur-Reads _) (
          Loads-bind _ _ _ _ _ _ (dur-Reads _) (
            Loads-bind _ _ _ _ _ _ (str-Reads _) (
              Loads-bind _ _ _ _ _ _ (str-Reads _) (
                Loads-bind _ _ _ _ _ _ (str-Reads _) (
                  Loads-bind _ _ _ _ _ _ (str-Reads _) (
                    Loads-bind _ _ _ _ _ _ (str-Reads _)
                      (Loads-bind _ _ _ _ _ _ (str-Reads _) (Loads-checked _))))))))))

  abbrev pub controller_variables : List Variable
  controller_variables =
      text (codes "URAN_DATABASE_URL")
      ∷ text (codes "URAN_ENV")
      ∷ text (codes "URAN_KUBECONFIG")
      ∷ text (codes "URAN_BASE_DOMAIN")
      ∷ text (codes "URAN_CERT_ISSUER")
      ∷ text (codes "URAN_BACKUP_ENDPOINT")
      ∷ text (codes "URAN_BACKUP_BUCKET")
      ∷ text (codes "URAN_BACKUP_ACCESS_KEY")
      ∷ text (codes "URAN_BACKUP_SECRET_KEY")
      ∷ []

  abbrev pub controller_config : ControllerConfig
  controller_config = record {
    database_url = environment (codes "URAN_DATABASE_URL");
    env = environment (codes "URAN_ENV");
    kubeconfig = environment (codes "URAN_KUBECONFIG");
    base_domain = environment (codes "URAN_BASE_DOMAIN");
    cert_issuer = environment (codes "URAN_CERT_ISSUER");
    backup_endpoint = environment (codes "URAN_BACKUP_ENDPOINT");
    backup_bucket = environment (codes "URAN_BACKUP_BUCKET");
    backup_access_key = environment (codes "URAN_BACKUP_ACCESS_KEY");
    backup_secret_key = environment (codes "URAN_BACKUP_SECRET_KEY");
  }

  load_controller-Loads :
      Loads (load_controller u environment) controller_config (problems controller_variables)
  unfolding load_controller problems
  load_controller-Loads = Loads-bind _ _ _ _ _ _ (str-Reads _) (
      Loads-bind _ _ _ _ _ _ (str-Reads _) (
        Loads-bind _ _ _ _ _ _ (str-Reads _) (
          Loads-bind _ _ _ _ _ _ (str-Reads _) (
            Loads-bind _ _ _ _ _ _ (str-Reads _) (
              Loads-bind _ _ _ _ _ _ (str-Reads _) (
                Loads-bind _ _ _ _ _ _ (str-Reads _) (
                  Loads-bind _ _ _ _ _ _ (str-Reads _)
                    (Loads-bind _ _ _ _ _ _ (str-Reads _) (Loads-checked _)))))))))

  checked-reported : {C : Type 0} (c : C) (ps : List Text) → (checked c ps).0 ≡ reported c ps
  unfolding checked
  checked-reported c [] = refl
  checked-reported c (p ∷ ps) = refl

  Loads-reported :
      {C : Type 0} (m : Loader C) (c : C) (ps : List Text) → Loads m c ps → (m []).0 ≡ reported c ps
  unfolding Loads
  Loads-reported m c ps loads = ap (λ x. x.0) (loads []) ∙ checked-reported c ps

  -- Each of the three loaders returns the configuration that the environment spells out if none of
  -- its variables is blank and its durations parse; if not, its error lists each variable that is
  -- blank and each duration that does not parse, in the order of the variables, and nothing else.
  pub loaders_report :
      ((load_api u environment parse_duration []).0 ≡ reported api_config (problems api_variables))
      × ((load_builder u environment []).0 ≡ reported builder_config (problems builder_variables))
      × ((load_controller u environment []).0
          ≡ reported controller_config (problems controller_variables))
  loaders_report = (
    Loads-reported _ _ _ load_api-Loads,
    Loads-reported _ _ _ load_builder-Loads,
    Loads-reported _ _ _ load_controller-Loads,
  )
