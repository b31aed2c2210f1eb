-- ===== src/Client/Reaches/Account.antt =====
-- cmd/uran/commands.go with internal/api: the commands on tokens and registries.
use uran_api.Prelude.{ℤ, Text, ◌≡◌, refl, none, some, [], ◌∷◌, ◌++◌, nat_eq, text_eq, text_beq, any}
use uran_api.Go.Text.{codes, split}
use uran_api.Go.Decimal.{format_int}
use uran_api.Go.Decimal.RoundTrip.{parse_int-format_int}
use uran_api.Go.Unicode.{Unicode}
use uran_api.Go.Json.{text, obj, end, member, struct_of, only, value_of, text_field}
use uran_api.Client.{Credentials, Terminal}
use uran_api.Client.Orgs.{
  cmd_token_create, cmd_token_list, cmd_token_rm, cmd_whoami, cmd_audit, cmd_registry_list,
  cmd_registry_add, cmd_registry_rm,
}
use uran_api.Client.Commands.{
  run, token_create, token_list, token_rm, whoami, audit, registry_list, registry_add, registry_rm,
}
use uran_api.Client.Meaning.{meaning, Proper}
use uran_api.Api.Routes
use uran_api.Api.Routes.{Mux, Finds, fitting, matched, routes}
use uran_api.Api.Bodies.{read_text, read_registry}
use uran_api.Api.Calls.{read_body}
use uran_api.Client.Reaches.{
  filled_both, id-Reached, format_int-ne, split_id, split_last, Reached, reached, sent_free,
  sent_by,
}

module _ (u : Unicode) (mux : Mux) (finds : Finds mux) (cred : Credentials) (t : Terminal)
    (saved : t.saved ≡ some cred) where
  pub token_create-Reached :
      (token : Text)
      → Proper (token_create token)
      → Reached mux (run u (token_create token)) (meaning (token_create token)) cred t
  unfolding cmd_token_create fitting matched split text_beq read_body read_text struct_of only
      value_of any text_field
  token_create-Reached token h =
      reached mux finds (run u (token_create token)) (meaning (token_create token)) cred t "POST"
        (codes "/v1/tokens") (some (obj (member "name" (text token) end))) ([])
        ([] ∷ codes "v1" ∷ codes "tokens" ∷ [])
        (sent_by u cred t saved _ "POST" _ _ _ (rw (h) refl)) refl refl refl tt

  pub token_list-Reached : Reached mux (run u token_list) (meaning token_list) cred t
  unfolding cmd_token_list fitting matched split text_beq read_body
  token_list-Reached =
      reached mux finds (run u token_list) (meaning token_list) cred t "GET" (codes "/v1/tokens")
        none ([]) ([] ∷ codes "v1" ∷ codes "tokens" ∷ []) (sent_free u cred t saved "GET" _ _ _)
        refl refl refl tt

  pub token_rm-Reached :
      (token : ℤ)
      → Proper (token_rm token)
      → Reached mux (run u (token_rm token)) (meaning (token_rm token)) cred t
  unfolding cmd_token_rm fitting matched split text_beq read_body
  token_rm-Reached token h =
      id-Reached mux finds (run u (token_rm token)) (meaning (token_rm token)) cred t "DELETE"
        (codes "/v1/tokens/" ++ (format_int token)) none token
        (λ s. [] ∷ codes "v1" ∷ codes "tokens" ∷ s ∷ []) h.1
        (sent_by u cred t saved _ "DELETE" _ _ _ h.0) (rw (split_last token) refl) (λ c s. refl)
        refl refl

  pub whoami-Reached : Reached mux (run u whoami) (meaning whoami) cred t
  unfolding cmd_whoami fitting matched split text_beq read_body
  whoami-Reached =
      reached mux finds (run u whoami) (meaning whoami) cred t "GET" (codes "/v1/me") none ([])
        ([] ∷ codes "v1" ∷ codes "me" ∷ []) (sent_free u cred t saved "GET" _ _ _) refl refl refl tt

  pub audit-Reached : Reached mux (run u audit) (meaning audit) cred t
  unfolding cmd_audit fitting matched split text_beq read_body
  audit-Reached =
      reached mux finds (run u audit) (meaning audit) cred t "GET" (codes "/v1/audit") none ([])
        ([] ∷ codes "v1" ∷ codes "audit" ∷ []) (sent_free u cred t saved "GET" _ _ _) refl refl refl
        tt

  pub registry_list-Reached :
      (org : ℤ)
      → Proper (registry_list org)
      → Reached mux (run u (registry_list org)) (meaning (registry_list org)) cred t
  unfolding cmd_registry_list fitting matched split text_beq read_body
  registry_list-Reached org h =
      id-Reached mux finds (run u (registry_list org)) (meaning (registry_list org)) cred t "GET"
        (codes "/v1/orgs/" ++ (format_int org ++ (codes "/registry-credentials"))) none org
        (λ s. [] ∷ codes "v1" ∷ codes "orgs" ∷ s ∷ codes "registry-credentials" ∷ []) h.1
        (sent_by u cred t saved _ "GET" _ _ _ h.0)
        (rw (split_id org (codes "registry-credentials")) refl) (λ c s. refl) refl refl

  pub registry_add-Reached :
      (org : ℤ) (host : Text) (username : Text) (password : Text)
      → Proper (registry_add org host username password)
      → Reached mux
          (run u (registry_add org host username password))
          (meaning (registry_add org host username password))
          cred
          t
  unfolding cmd_registry_add fitting matched split text_beq read_body read_registry struct_of only
      value_of any text_field
  registry_add-Reached org host username password h =
      id-Reached mux finds (run u (registry_add org host username password))
        (meaning (registry_add org host username password)) cred t "POST"
        (codes "/v1/orgs/" ++ (format_int org ++ (codes "/registry-credentials")))
        (some (
          obj (
            member "registry" (text host)
              (member "username" (text username) (member "password" (text password) end)))))
        org (λ s. [] ∷ codes "v1" ∷ codes "orgs" ∷ s ∷ codes "registry-credentials" ∷ []) h.0.1
        (sent_by u cred t saved _ "POST" _ _ _ (rw (h.0.0, h.1.0, h.1.1.0, h.1.1.1) refl))
        (rw (split_id org (codes "registry-credentials")) refl) (λ c s. refl) refl refl

  pub registry_rm-Reached :
      (org : ℤ) (entry : ℤ)
      → Proper (registry_rm org entry)
      → Reached mux (run u (registry_rm org entry)) (meaning (registry_rm org entry)) cred t
  unfolding cmd_registry_rm fitting matched split text_beq read_body
  registry_rm-Reached org entry h =
      reached mux finds (run u (registry_rm org entry)) (meaning (registry_rm org entry)) cred t
        "DELETE"
        (codes "/v1/orgs/"
          ++ (format_int org ++ (codes "/registry-credentials/" ++ (format_int entry))))
        none (format_int org ∷ format_int entry ∷ [])
        ([]
          ∷ codes "v1"
          ∷ codes "orgs"
          ∷ format_int org
          ∷ codes "registry-credentials"
          ∷ format_int entry
          ∷ [])
        (sent_by u cred t saved _ "DELETE" _ _ _ (rw (h.0.0, h.1.0) refl))
        (rw (split_id org (codes "registry-credentials/" ++ (format_int entry)), split_last entry)
          refl)
        (filled_both
          (λ r s.
            fitting routes "DELETE"
              ([] ∷ codes "v1" ∷ codes "orgs" ∷ r ∷ codes "registry-credentials" ∷ s ∷ [])
            ≡ (Routes.delete_registry_cred, r ∷ s ∷ []) ∷ [])
          (λ c r d s. refl) (format_int org) (format_int-ne org h.0.1) (format_int entry)
          (format_int-ne entry h.1.1))
        refl (parse_int-format_int org h.0.1, (parse_int-format_int entry h.1.1, tt))
