-- ===== src/Client/Reaches/Settings.antt =====
-- cmd/uran/commands.go with internal/api: the commands on the settings of services.
use uran_api.Prelude.{ℤ, Text, ◌≡◌, refl, none, some, [], ◌∷◌, ◌++◌, nat_eq, text_eq, text_beq, any}
use uran_api.Go.Text.{codes, split}
use uran_api.Go.Decimal.{format_int}
use uran_api.Go.Unicode.{Unicode}
use uran_api.Go.Json.{
  text, number, obj, end, member, struct_of, only, value_of, text_field, int32_field,
}
use uran_api.Client.{Credentials, Terminal}
use uran_api.Client.Services.{
  cmd_scale, suspend_resume, cmd_health, cmd_disk_attach, cmd_disk_detach,
}
use uran_api.Client.Commands.{run, set_scale, suspend, resume, health, disk_attach, disk_detach}
use uran_api.Client.Meaning.{meaning, Proper}
use uran_api.Api.Routes.{Mux, Finds, fitting, matched}
use uran_api.Api.Bodies.{read_text, read_scale, read_disk}
use uran_api.Api.Calls.{read_body}
use uran_api.Client.Reaches.{id-Reached, split_id, Reached, sent_by}

module _ (u : Unicode) (mux : Mux) (finds : Finds mux) (cred : Credentials) (t : Terminal)
    (saved : t.saved ≡ some cred) where
  pub set_scale-Reached :
      (service : ℤ) (replicas : ℤ) (size : Text) (low : ℤ) (high : ℤ)
      → Proper (set_scale service replicas size low high)
      → Reached mux
          (run u (set_scale service replicas size low high))
          (meaning (set_scale service replicas size low high))
          cred
          t
  unfolding cmd_scale fitting matched split text_beq read_body read_scale int32_field struct_of only
      value_of any text_field
  set_scale-Reached service replicas size low high h =
      id-Reached mux finds (run u (set_scale service replicas size low high))
        (meaning (set_scale service replicas size low high)) cred t "POST"
        (codes "/v1/services/" ++ (format_int service ++ (codes "/scale")))
        (some (
          obj (
            member "replicas" (number replicas) (
              member "instance_size" (text size)
                (member "min_replicas" (number low) (member "max_replicas" (number high) end))))))
        service (λ s. [] ∷ codes "v1" ∷ codes "services" ∷ s ∷ codes "scale" ∷ []) h.0.1
        (sent_by u cred t saved _ "POST" _ _ _ h.0.0) (rw (split_id service (codes "scale")) refl)
        (λ c s. refl) (rw (h.1.0, h.1.1.0, h.1.1.1) refl) refl

  pub suspend-Reached :
      (service : ℤ)
      → Proper (suspend service)
      → Reached mux (run u (suspend service)) (meaning (suspend service)) cred t
  unfolding suspend_resume fitting matched split text_beq read_body
  suspend-Reached service h =
      id-Reached mux finds (run u (suspend service)) (meaning (suspend service)) cred t "POST"
        (codes "/v1/services/" ++ (format_int service ++ (codes "/" ++ codes "suspend"))) none
        service (λ s. [] ∷ codes "v1" ∷ codes "services" ∷ s ∷ codes "suspend" ∷ []) h.1
        (sent_by u cred t saved _ "POST" _ _ _ h.0) (rw (split_id service (codes "suspend")) refl)
        (λ c s. refl) refl refl

  pub resume-Reached :
      (service : ℤ)
      → Proper (resume service)
      → Reached mux (run u (resume service)) (meaning (resume service)) cred t
  unfolding suspend_resume fitting matched split text_beq read_body
  resume-Reached service h =
      id-Reached mux finds (run u (resume service)) (meaning (resume service)) cred t "POST"
        (codes "/v1/services/" ++ (format_int service ++ (codes "/" ++ codes "resume"))) none
        service (λ s. [] ∷ codes "v1" ∷ codes "services" ∷ s ∷ codes "resume" ∷ []) h.1
        (sent_by u cred t saved _ "POST" _ _ _ h.0) (rw (split_id service (codes "resume")) refl)
        (λ c s. refl) refl refl

  pub health-Reached :
      (service : ℤ) (path : Text)
      → Proper (health service path)
      → Reached mux (run u (health service path)) (meaning (health service path)) cred t
  unfolding cmd_health fitting matched split text_beq read_body read_text struct_of only value_of
      any text_field
  health-Reached service path h =
      id-Reached mux finds (run u (health service path)) (meaning (health service path)) cred t
        "POST" (codes "/v1/services/" ++ (format_int service ++ (codes "/health")))
        (some (obj (member "path" (text path) end))) service
        (λ s. [] ∷ codes "v1" ∷ codes "services" ∷ s ∷ codes "health" ∷ []) h.1
        (sent_by u cred t saved _ "POST" _ _ _ h.0) (rw (split_id service (codes "health")) refl)
        (λ c s. refl) refl refl

  pub disk_attach-Reached :
      (service : ℤ) (size : Text) (path : Text)
      → Proper (disk_attach service size path)
      → Reached mux
          (run u (disk_attach service size path))
          (meaning (disk_attach service size path))
          cred
          t
  unfolding cmd_disk_attach fitting matched split text_beq read_body read_disk struct_of only
      value_of any text_field
  disk_attach-Reached service size path h =
      id-Reached mux finds (run u (disk_attach service size path))
        (meaning (disk_attach service size path)) cred t "POST"
        (codes "/v1/services/" ++ (format_int service ++ (codes "/disk")))
        (some (obj (member "size" (text size) (member "path" (text path) end)))) service
        (λ s. [] ∷ codes "v1" ∷ codes "services" ∷ s ∷ codes "disk" ∷ []) h.0.1
        (sent_by u cred t saved _ "POST" _ _ _ (rw (h.0.0, h.1.0, h.1.1) refl))
        (rw (split_id service (codes "disk")) refl) (λ c s. refl) refl refl

  pub disk_detach-Reached :
      (service : ℤ)
      → Proper (disk_detach service)
      → Reached mux (run u (disk_detach service)) (meaning (disk_detach service)) cred t
  unfolding cmd_disk_detach fitting matched split text_beq read_body
  disk_detach-Reached service h =
      id-Reached mux finds (run u (disk_detach service)) (meaning (disk_detach service)) cred t
        "DELETE" (codes "/v1/services/" ++ (format_int service ++ (codes "/disk"))) none service
        (λ s. [] ∷ codes "v1" ∷ codes "services" ∷ s ∷ codes "disk" ∷ []) h.1
        (sent_by u cred t saved _ "DELETE" _ _ _ h.0) (rw (split_id service (codes "disk")) refl)
        (λ c s. refl) refl refl
