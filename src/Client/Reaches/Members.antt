-- ===== src/Client/Reaches/Members.antt =====
-- cmd/uran/commands.go with internal/api: the commands on members.
use uran_api.Prelude.{ℤ, Text, ◌≡◌, refl, none, some, [], ◌∷◌, ◌++◌, nat_eq, text_eq, text_beq, any}
use uran_api.Go.Text.{codes, split}
use uran_api.Go.Decimal.{format_int}
use uran_api.Go.Decimal.RoundTrip.{parse_int-format_int}
use uran_api.Go.Unicode.{Unicode}
use uran_api.Go.Json.{text, obj, end, member, struct_of, only, value_of, text_field}
use uran_api.Client.{Credentials, Terminal}
use uran_api.Client.Orgs.{cmd_member_list, cmd_member_add, cmd_member_set_role, cmd_member_rm}
use uran_api.Client.Commands.{run, member_list, member_add, member_set_role, member_rm}
use uran_api.Client.Meaning.{meaning, Proper}
use uran_api.Api.Routes
use uran_api.Api.Routes.{Mux, Finds, fitting, matched, routes}
use uran_api.Api.Bodies.{read_text, read_word, read_member}
use uran_api.Api.Calls.{read_body}
use uran_api.Client.Reaches.{
  filled_both, id-Reached, format_int-ne, split_id, split_last, Reached, reached, sent_by,
}

module _ (u : Unicode) (mux : Mux) (finds : Finds mux) (cred : Credentials) (t : Terminal)
    (saved : t.saved ≡ some cred) where
  pub member_list-Reached :
      (org : ℤ)
      → Proper (member_list org)
      → Reached mux (run u (member_list org)) (meaning (member_list org)) cred t
  unfolding cmd_member_list fitting matched split text_beq read_body
  member_list-Reached org h =
      id-Reached mux finds (run u (member_list org)) (meaning (member_list org)) cred t "GET"
        (codes "/v1/orgs/" ++ (format_int org ++ (codes "/members"))) none org
        (λ s. [] ∷ codes "v1" ∷ codes "orgs" ∷ s ∷ codes "members" ∷ []) h.1
        (sent_by u cred t saved _ "GET" _ _ _ h.0) (rw (split_id org (codes "members")) refl)
        (λ c s. refl) refl refl

  pub member_add-Reached :
      (org : ℤ) (email : Text) (role : Text)
      → Proper (member_add org email role)
      → Reached mux (run u (member_add org email role)) (meaning (member_add org email role)) cred t
  unfolding cmd_member_add fitting matched split text_beq read_body read_member struct_of only
      value_of any text_field
  member_add-Reached org email role h =
      id-Reached mux finds (run u (member_add org email role)) (meaning (member_add org email role))
        cred t "POST" (codes "/v1/orgs/" ++ (format_int org ++ (codes "/members")))
        (some (obj (member "email" (text email) (member "role" (text role) end)))) org
        (λ s. [] ∷ codes "v1" ∷ codes "orgs" ∷ s ∷ codes "members" ∷ []) h.0.1
        (sent_by u cred t saved _ "POST" _ _ _ (rw (h.0.0, h.1) refl))
        (rw (split_id org (codes "members")) refl) (λ c s. refl) refl refl

  pub member_set_role-Reached :
      (org : ℤ) (user : ℤ) (role : Text)
      → Proper (member_set_role org user role)
      → Reached mux
          (run u (member_set_role org user role))
          (meaning (member_set_role org user role))
          cred
          t
  unfolding cmd_member_set_role fitting matched split text_beq read_body read_word read_text
      struct_of only value_of any text_field
  member_set_role-Reached org user role h =
      reached mux finds (run u (member_set_role org user role))
        (meaning (member_set_role org user role)) cred t "PATCH"
        (codes "/v1/orgs/" ++ (format_int org ++ (codes "/members/" ++ (format_int user))))
        (some (obj (member "role" (text role) end))) (format_int org ∷ format_int user ∷ [])
        ([] ∷ codes "v1" ∷ codes "orgs" ∷ format_int org ∷ codes "members" ∷ format_int user ∷ [])
        (sent_by u cred t saved _ "PATCH" _ _ _ (rw (h.0.0, h.1.0.0, h.1.1) refl))
        (rw (split_id org (codes "members/" ++ (format_int user)), split_last user) refl)
        (filled_both
          (λ r s.
            fitting routes "PATCH" ([] ∷ codes "v1" ∷ codes "orgs" ∷ r ∷ codes "members" ∷ s ∷ [])
            ≡ (Routes.set_member_role, r ∷ s ∷ []) ∷ [])
          (λ c r d s. refl) (format_int org) (format_int-ne org h.0.1) (format_int user)
          (format_int-ne user h.1.0.1))
        refl (parse_int-format_int org h.0.1, (parse_int-format_int user h.1.0.1, tt))

  pub member_rm-Reached :
      (org : ℤ) (user : ℤ)
      → Proper (member_rm org user)
      → Reached mux (run u (member_rm org user)) (meaning (member_rm org user)) cred t
  unfolding cmd_member_rm fitting matched split text_beq read_body
  member_rm-Reached org user h =
      reached mux finds (run u (member_rm org user)) (meaning (member_rm org user)) cred t "DELETE"
        (codes "/v1/orgs/" ++ (format_int org ++ (codes "/members/" ++ (format_int user)))) none
        (format_int org ∷ format_int user ∷ [])
        ([] ∷ codes "v1" ∷ codes "orgs" ∷ format_int org ∷ codes "members" ∷ format_int user ∷ [])
        (sent_by u cred t saved _ "DELETE" _ _ _ (rw (h.0.0, h.1.0) refl))
        (rw (split_id org (codes "members/" ++ (format_int user)), split_last user) refl)
        (filled_both
          (λ r s.
            fitting routes "DELETE" ([] ∷ codes "v1" ∷ codes "orgs" ∷ r ∷ codes "members" ∷ s ∷ [])
            ≡ (Routes.remove_member, r ∷ s ∷ []) ∷ [])
          (λ c r d s. refl) (format_int org) (format_int-ne org h.0.1) (format_int user)
          (format_int-ne user h.1.1))
        refl (parse_int-format_int org h.0.1, (parse_int-format_int user h.1.1, tt))
