-- ===== src/Client/Reaches/Attachments.antt =====
-- cmd/uran/commands.go with internal/api: the commands on domains and environments.
use uran_api.Prelude.{
  ℤ, Text, Bool, ◌≡◌, refl, none, some, [], ◌∷◌, ◌++◌, nat_eq, text_eq, text_beq, any,
}
use uran_api.Exec.{pure, lift, guard, ◌>>=◌}
use uran_api.Go.Text.{codes, split}
use uran_api.Go.Text.Laws.{split-Free, cut-joined}
use uran_api.Go.Decimal.{format_int}
use uran_api.Go.Decimal.RoundTrip.{parse_int-format_int}
use uran_api.Go.Unicode.{Unicode}
use uran_api.Go.Json.{
  text, boolean, obj, end, member, struct_of, only, value_of, text_field, bool_field,
}
use uran_api.Client.{Credentials, Terminal, one_argument, authed, load, new_client, ask, send}
use uran_api.Client.Attachments.{
  cmd_domain_list, cmd_domain_add, cmd_domain_rm, cmd_env_list, cmd_env_set, cmd_env_rm,
}
use uran_api.Client.Commands.{run, domain_list, domain_add, domain_rm, env_list, env_set, env_rm}
use uran_api.Client.Meaning.{meaning, Proper}
use uran_api.Api.Routes
use uran_api.Api.Routes.{Mux, Finds, fitting, matched, routes}
use uran_api.Api.Bodies.{read_text, read_env}
use uran_api.Api.Calls.{read_body}
use uran_api.Client.Reaches.{
  filled_both, id-Reached, format_int-ne, split_id, IsSegment-Free, Reached, reached, sent_by,
}

module _ (u : Unicode) (mux : Mux) (finds : Finds mux) (cred : Credentials) (t : Terminal)
    (saved : t.saved ≡ some cred) where
  pub domain_list-Reached :
      (service : ℤ)
      → Proper (domain_list service)
      → Reached mux (run u (domain_list service)) (meaning (domain_list service)) cred t
  unfolding cmd_domain_list fitting matched split text_beq read_body
  domain_list-Reached service h =
      id-Reached mux finds (run u (domain_list service)) (meaning (domain_list service)) cred t
        "GET" (codes "/v1/services/" ++ (format_int service ++ (codes "/domains"))) none service
        (λ s. [] ∷ codes "v1" ∷ codes "services" ∷ s ∷ codes "domains" ∷ []) h.1
        (sent_by u cred t saved _ "GET" _ _ _ h.0) (rw (split_id service (codes "domains")) refl)
        (λ c s. refl) refl refl

  pub domain_add-Reached :
      (service : ℤ) (domain : Text)
      → Proper (domain_add service domain)
      → Reached mux (run u (domain_add service domain)) (meaning (domain_add service domain)) cred t
  unfolding cmd_domain_add fitting matched split text_beq read_body read_text struct_of only
      value_of any text_field one_argument ◌>>=◌ pure
  domain_add-Reached service domain h =
      id-Reached mux finds (run u (domain_add service domain)) (meaning (domain_add service domain))
        cred t "POST" (codes "/v1/services/" ++ (format_int service ++ (codes "/domains")))
        (some (obj (member "domain" (text domain) end))) service
        (λ s. [] ∷ codes "v1" ∷ codes "services" ∷ s ∷ codes "domains" ∷ []) h.1
        (sent_by u cred t saved _ "POST" _ _ _ h.0) (rw (split_id service (codes "domains")) refl)
        (λ c s. refl) refl refl

  pub domain_rm-Reached :
      (service : ℤ) (domain : Text)
      → Proper (domain_rm service domain)
      → Reached mux (run u (domain_rm service domain)) (meaning (domain_rm service domain)) cred t
  unfolding cmd_domain_rm fitting matched split text_beq read_body one_argument ◌>>=◌ pure
  domain_rm-Reached service domain h =
      reached mux finds (run u (domain_rm service domain)) (meaning (domain_rm service domain)) cred
        t "DELETE"
        (codes "/v1/services/" ++ (format_int service ++ (codes "/domains/" ++ (domain)))) none
        (format_int service ∷ domain ∷ [])
        ([] ∷ codes "v1" ∷ codes "services" ∷ format_int service ∷ codes "domains" ∷ domain ∷ [])
        (sent_by u cred t saved _ "DELETE" _ _ _ h.0.0)
        (rw
          (
            split_id service (codes "domains/" ++ domain),
            split-Free b'/' domain (IsSegment-Free domain h.1),
          )
          refl)
        (filled_both
          (λ r s.
            fitting routes "DELETE"
              ([] ∷ codes "v1" ∷ codes "services" ∷ r ∷ codes "domains" ∷ s ∷ [])
            ≡ (Routes.delete_domain, r ∷ s ∷ []) ∷ [])
          (λ c r d s. refl) (format_int service) (format_int-ne service h.0.1) domain h.1.0)
        refl (parse_int-format_int service h.0.1, (refl, tt))

  pub env_list-Reached :
      (service : ℤ)
      → Proper (env_list service)
      → Reached mux (run u (env_list service)) (meaning (env_list service)) cred t
  unfolding cmd_env_list fitting matched split text_beq read_body
  env_list-Reached service h =
      id-Reached mux finds (run u (env_list service)) (meaning (env_list service)) cred t "GET"
        (codes "/v1/services/" ++ (format_int service ++ (codes "/env"))) none service
        (λ s. [] ∷ codes "v1" ∷ codes "services" ∷ s ∷ codes "env" ∷ []) h.1
        (sent_by u cred t saved _ "GET" _ _ _ h.0) (rw (split_id service (codes "env")) refl)
        (λ c s. refl) refl refl

  pub env_set-Reached :
      (service : ℤ) (secret : Bool) (build : Bool) (key : Text) (value : Text)
      → Proper (env_set service secret build key value)
      → Reached mux
          (run u (env_set service secret build key value))
          (meaning (env_set service secret build key value))
          cred
          t
  unfolding cmd_env_set fitting matched split text_beq read_body read_env bool_field struct_of only
      value_of any text_field one_argument ◌>>=◌ pure guard authed load new_client ask send lift
  env_set-Reached service secret build key value h =
      id-Reached mux finds (run u (env_set service secret build key value))
        (meaning (env_set service secret build key value)) cred t "POST"
        (codes "/v1/services/" ++ (format_int service ++ (codes "/env")))
        (some (
          obj (
            member "key" (text key) (
              member "value" (text value)
                (member "secret" (boolean secret) (member "build_time" (boolean build) end))))))
        service (λ s. [] ∷ codes "v1" ∷ codes "services" ∷ s ∷ codes "env" ∷ []) h.0.1
        (rw (h.0.0, cut-joined b'=' key value h.1, saved) refl)
        (rw (split_id service (codes "env")) refl) (λ c s. refl) refl refl

  pub env_rm-Reached :
      (service : ℤ) (key : Text)
      → Proper (env_rm service key)
      → Reached mux (run u (env_rm service key)) (meaning (env_rm service key)) cred t
  unfolding cmd_env_rm fitting matched split text_beq read_body one_argument ◌>>=◌ pure
  env_rm-Reached service key h =
      reached mux finds (run u (env_rm service key)) (meaning (env_rm service key)) cred t "DELETE"
        (codes "/v1/services/" ++ (format_int service ++ (codes "/env/" ++ (key)))) none
        (format_int service ∷ key ∷ [])
        ([] ∷ codes "v1" ∷ codes "services" ∷ format_int service ∷ codes "env" ∷ key ∷ [])
        (sent_by u cred t saved _ "DELETE" _ _ _ h.0.0)
        (rw (split_id service (codes "env/" ++ key), split-Free b'/' key (IsSegment-Free key h.1))
          refl)
        (filled_both
          (λ r s.
            fitting routes "DELETE" ([] ∷ codes "v1" ∷ codes "services" ∷ r ∷ codes "env" ∷ s ∷ [])
            ≡ (Routes.delete_env, r ∷ s ∷ []) ∷ [])
          (λ c r d s. refl) (format_int service) (format_int-ne service h.0.1) key h.1.0)
        refl (parse_int-format_int service h.0.1, (refl, tt))
