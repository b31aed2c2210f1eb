-- ===== src/Client/Reaches/Deploys.antt =====
-- cmd/uran/commands.go with internal/api: the commands on deploys and on what services report.
use uran_api.Prelude.{ℤ, Text, ◌≡◌, refl, none, some, [], ◌∷◌, ◌++◌, nat_eq, text_eq, text_beq, any}
use uran_api.Exec.{pure, lift, guard, ◌>>=◌}
use uran_api.Go.Text.{codes, split}
use uran_api.Go.Decimal.{format_int}
use uran_api.Go.Unicode.{Unicode}
use uran_api.Go.Json.{text, obj, end, member, struct_of, only, value_of, text_field}
use uran_api.Client.{Credentials, Terminal, authed, load, new_client, ask, send}
use uran_api.Client.Services.{
  cmd_deploy, cmd_status, cmd_service_status, cmd_rollback, cmd_info, cmd_usage, cmd_metrics,
}
use uran_api.Client.Commands.{
  run, rollback, info, usage, metrics, project_status, deploy_status, deploy_commit, deploy_image,
}
use uran_api.Client.Meaning.{meaning, Proper}
use uran_api.Api.Routes.{Mux, Finds, fitting, matched}
use uran_api.Api.Bodies.{read_text, read_commit}
use uran_api.Api.Calls.{read_body}
use uran_api.Client.Reaches.{id-Reached, split_id, split_last, Reached, sent_free, sent_by}

module _ (u : Unicode) (mux : Mux) (finds : Finds mux) (cred : Credentials) (t : Terminal)
    (saved : t.saved ≡ some cred) where
  pub rollback-Reached :
      (deploy : ℤ)
      → Proper (rollback deploy)
      → Reached mux (run u (rollback deploy)) (meaning (rollback deploy)) cred t
  unfolding cmd_rollback fitting matched split text_beq read_body
  rollback-Reached deploy h =
      id-Reached mux finds (run u (rollback deploy)) (meaning (rollback deploy)) cred t "POST"
        (codes "/v1/deploys/" ++ (format_int deploy ++ (codes "/rollback"))) none deploy
        (λ s. [] ∷ codes "v1" ∷ codes "deploys" ∷ s ∷ codes "rollback" ∷ []) h.1
        (sent_by u cred t saved _ "POST" _ _ _ h.0) (rw (split_id deploy (codes "rollback")) refl)
        (λ c s. refl) refl refl

  pub info-Reached :
      (service : ℤ)
      → Proper (info service)
      → Reached mux (run u (info service)) (meaning (info service)) cred t
  unfolding cmd_info fitting matched split text_beq read_body
  info-Reached service h =
      id-Reached mux finds (run u (info service)) (meaning (info service)) cred t "GET"
        (codes "/v1/services/" ++ (format_int service)) none service
        (λ s. [] ∷ codes "v1" ∷ codes "services" ∷ s ∷ []) h.1
        (sent_by u cred t saved _ "GET" _ _ _ h.0) (rw (split_last service) refl) (λ c s. refl) refl
        refl

  pub usage-Reached :
      (service : ℤ)
      → Proper (usage service)
      → Reached mux (run u (usage service)) (meaning (usage service)) cred t
  unfolding cmd_usage fitting matched split text_beq read_body
  usage-Reached service h =
      id-Reached mux finds (run u (usage service)) (meaning (usage service)) cred t "GET"
        (codes "/v1/services/" ++ (format_int service ++ (codes "/usage"))) none service
        (λ s. [] ∷ codes "v1" ∷ codes "services" ∷ s ∷ codes "usage" ∷ []) h.1
        (sent_by u cred t saved _ "GET" _ _ _ h.0) (rw (split_id service (codes "usage")) refl)
        (λ c s. refl) refl refl

  pub metrics-Reached :
      (service : ℤ)
      → Proper (metrics service)
      → Reached mux (run u (metrics service)) (meaning (metrics service)) cred t
  unfolding cmd_metrics fitting matched split text_beq read_body
  metrics-Reached service h =
      id-Reached mux finds (run u (metrics service)) (meaning (metrics service)) cred t "GET"
        (codes "/v1/services/" ++ (format_int service ++ (codes "/metrics"))) none service
        (λ s. [] ∷ codes "v1" ∷ codes "services" ∷ s ∷ codes "metrics" ∷ []) h.1
        (sent_by u cred t saved _ "GET" _ _ _ h.0) (rw (split_id service (codes "metrics")) refl)
        (λ c s. refl) refl refl

  pub project_status-Reached :
      (project : ℤ)
      → Proper (project_status project)
      → Reached mux (run u (project_status project)) (meaning (project_status project)) cred t
  unfolding cmd_status cmd_service_status fitting matched split text_beq read_body
  project_status-Reached project h =
      id-Reached mux finds (run u (project_status project)) (meaning (project_status project)) cred
        t "GET" (codes "/v1/projects/" ++ (format_int project ++ (codes "/status"))) none project
        (λ s. [] ∷ codes "v1" ∷ codes "projects" ∷ s ∷ codes "status" ∷ []) h.1
        (rw h.0 (sent_free u cred t saved "GET" _ _ _))
        (rw (split_id project (codes "status")) refl) (λ c s. refl) refl refl

  pub deploy_status-Reached :
      (deploy : ℤ)
      → Proper (deploy_status deploy)
      → Reached mux (run u (deploy_status deploy)) (meaning (deploy_status deploy)) cred t
  unfolding cmd_status fitting matched split text_beq read_body
  deploy_status-Reached deploy h =
      id-Reached mux finds (run u (deploy_status deploy)) (meaning (deploy_status deploy)) cred t
        "GET" (codes "/v1/deploys/" ++ (format_int deploy)) none deploy
        (λ s. [] ∷ codes "v1" ∷ codes "deploys" ∷ s ∷ []) h.1
        (sent_by u cred t saved _ "GET" _ _ _ h.0) (rw (split_last deploy) refl) (λ c s. refl) refl
        refl

  pub deploy_commit-Reached :
      (service : ℤ) (sha : Text)
      → Proper (deploy_commit service sha)
      → Reached mux (run u (deploy_commit service sha)) (meaning (deploy_commit service sha)) cred t
  unfolding cmd_deploy fitting matched split text_beq read_body read_commit struct_of only value_of
      any text_field guard authed load new_client ask send lift ◌>>=◌ pure
  deploy_commit-Reached service sha h =
      id-Reached mux finds (run u (deploy_commit service sha)) (meaning (deploy_commit service sha))
        cred t "POST" (codes "/v1/services/" ++ (format_int service ++ (codes "/deploys")))
        (some (obj (member "commit_sha" (text sha) end))) service
        (λ s. [] ∷ codes "v1" ∷ codes "services" ∷ s ∷ codes "deploys" ∷ []) h.1
        (rw (h.0, saved) refl) (rw (split_id service (codes "deploys")) refl) (λ c s. refl) refl
        refl

  pub deploy_image-Reached :
      (service : ℤ) (sha : Text) (image : Text)
      → Proper (deploy_image service sha image)
      → Reached mux
          (run u (deploy_image service sha image))
          (meaning (deploy_image service sha image))
          cred
          t
  unfolding cmd_deploy fitting matched split text_beq read_body read_text struct_of only value_of
      any text_field guard authed load new_client ask send lift ◌>>=◌ pure
  deploy_image-Reached service sha image h =
      id-Reached mux finds (run u (deploy_image service sha image))
        (meaning (deploy_image service sha image)) cred t "POST"
        (codes "/v1/services/" ++ (format_int service ++ (codes "/image-deploys")))
        (some (obj (member "image" (text image) end))) service
        (λ s. [] ∷ codes "v1" ∷ codes "services" ∷ s ∷ codes "image-deploys" ∷ []) h.0.1
        (rw (h.0.0, saved, h.1) refl) (rw (split_id service (codes "image-deploys")) refl)
        (λ c s. refl) refl refl
