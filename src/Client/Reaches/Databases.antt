-- ===== src/Client/Reaches/Databases.antt =====
-- cmd/uran/commands.go with internal/api: the commands on databases.
use uran_api.Prelude.{ℤ, Text, ◌≡◌, refl, none, some, [], ◌∷◌, ◌++◌, nat_eq, text_eq, text_beq, any}
use uran_api.Exec.{pure, ◌>>=◌}
use uran_api.Go.Text.{codes, split}
use uran_api.Go.Decimal.{format_int}
use uran_api.Go.Unicode.{Unicode}
use uran_api.Go.Json.{
  text, number, boolean, obj, end, member, struct_of, only, value_of, text_field, bool_field,
  int32_field,
}
use uran_api.Client.{Credentials, Terminal, one_argument}
use uran_api.Client.Databases.{
  NewDatabase, cmd_db_create, cmd_db_scale, cmd_db_list, cmd_db_connection, cmd_db_backup,
  cmd_db_backups, cmd_db_rm,
}
use uran_api.Client.Commands.{
  run, db_create, db_scale, db_list, db_connection, db_backup, db_backups, db_rm,
}
use uran_api.Client.Meaning.{meaning, Proper}
use uran_api.Api.Routes.{Mux, Finds, fitting, matched}
use uran_api.Api.Bodies.{read_database, read_database_scale}
use uran_api.Api.Calls.{read_body}
use uran_api.Client.Reaches.{id-Reached, split_id, split_last, Reached, sent_by}

module _ (u : Unicode) (mux : Mux) (finds : Finds mux) (cred : Credentials) (t : Terminal)
    (saved : t.saved ≡ some cred) where
  pub db_create-Reached :
      (project : ℤ) (q : NewDatabase) (db : Text)
      → Proper (db_create project q db)
      → Reached mux (run u (db_create project q db)) (meaning (db_create project q db)) cred t
  unfolding cmd_db_create fitting matched split text_beq read_body read_database int32_field
      bool_field struct_of only value_of any text_field one_argument ◌>>=◌ pure
  db_create-Reached project q db h =
      id-Reached mux finds (run u (db_create project q db)) (meaning (db_create project q db)) cred
        t "POST" (codes "/v1/projects/" ++ (format_int project ++ (codes "/databases")))
        (some (
          obj (
            member "name" (text db) (
              member "engine" (text q.engine) (
                member "tier" (text q.tier) (
                  member "instances" (number q.instances) (
                    member "min_instances" (number q.min) (
                      member "max_instances" (number q.max) (
                        member "size" (text q.size) (
                          member "storage" (text q.storage) (
                            member "pooling" (boolean q.pooling)
                              (member "backups" (boolean q.backups) end))))))))))))
        project (λ s. [] ∷ codes "v1" ∷ codes "projects" ∷ s ∷ codes "databases" ∷ []) h.0.1
        (sent_by u cred t saved _ "POST" _ _ _ h.0.0)
        (rw (split_id project (codes "databases")) refl) (λ c s. refl)
        (rw (h.1.0, h.1.1.0, h.1.1.1) refl) refl

  pub db_scale-Reached :
      (db : ℤ) (instances : ℤ) (size : Text) (storage : Text)
      → Proper (db_scale db instances size storage)
      → Reached mux
          (run u (db_scale db instances size storage))
          (meaning (db_scale db instances size storage))
          cred
          t
  unfolding cmd_db_scale fitting matched split text_beq read_body read_database_scale int32_field
      struct_of only value_of any text_field
  db_scale-Reached db instances size storage h =
      id-Reached mux finds (run u (db_scale db instances size storage))
        (meaning (db_scale db instances size storage)) cred t "POST"
        (codes "/v1/databases/" ++ (format_int db ++ (codes "/scale")))
        (some (
          obj (
            member "instances" (number instances)
              (member "size" (text size) (member "storage" (text storage) end)))))
        db (λ s. [] ∷ codes "v1" ∷ codes "databases" ∷ s ∷ codes "scale" ∷ []) h.0.1
        (sent_by u cred t saved _ "POST" _ _ _ h.0.0) (rw (split_id db (codes "scale")) refl)
        (λ c s. refl) (rw (h.1) refl) refl

  pub db_list-Reached :
      (project : ℤ)
      → Proper (db_list project)
      → Reached mux (run u (db_list project)) (meaning (db_list project)) cred t
  unfolding cmd_db_list fitting matched split text_beq read_body
  db_list-Reached project h =
      id-Reached mux finds (run u (db_list project)) (meaning (db_list project)) cred t "GET"
        (codes "/v1/projects/" ++ (format_int project ++ (codes "/databases"))) none project
        (λ s. [] ∷ codes "v1" ∷ codes "projects" ∷ s ∷ codes "databases" ∷ []) h.1
        (sent_by u cred t saved _ "GET" _ _ _ h.0) (rw (split_id project (codes "databases")) refl)
        (λ c s. refl) refl refl

  pub db_connection-Reached :
      (db : ℤ)
      → Proper (db_connection db)
      → Reached mux (run u (db_connection db)) (meaning (db_connection db)) cred t
  unfolding cmd_db_connection fitting matched split text_beq read_body
  db_connection-Reached db h =
      id-Reached mux finds (run u (db_connection db)) (meaning (db_connection db)) cred t "GET"
        (codes "/v1/databases/" ++ (format_int db ++ (codes "/connection"))) none db
        (λ s. [] ∷ codes "v1" ∷ codes "databases" ∷ s ∷ codes "connection" ∷ []) h.1
        (sent_by u cred t saved _ "GET" _ _ _ h.0) (rw (split_id db (codes "connection")) refl)
        (λ c s. refl) refl refl

  pub db_backup-Reached :
      (db : ℤ)
      → Proper (db_backup db)
      → Reached mux (run u (db_backup db)) (meaning (db_backup db)) cred t
  unfolding cmd_db_backup fitting matched split text_beq read_body
  db_backup-Reached db h =
      id-Reached mux finds (run u (db_backup db)) (meaning (db_backup db)) cred t "POST"
        (codes "/v1/databases/" ++ (format_int db ++ (codes "/backups"))) none db
        (λ s. [] ∷ codes "v1" ∷ codes "databases" ∷ s ∷ codes "backups" ∷ []) h.1
        (sent_by u cred t saved _ "POST" _ _ _ h.0) (rw (split_id db (codes "backups")) refl)
        (λ c s. refl) refl refl

  pub db_backups-Reached :
      (db : ℤ)
      → Proper (db_backups db)
      → Reached mux (run u (db_backups db)) (meaning (db_backups db)) cred t
  unfolding cmd_db_backups fitting matched split text_beq read_body
  db_backups-Reached db h =
      id-Reached mux finds (run u (db_backups db)) (meaning (db_backups db)) cred t "GET"
        (codes "/v1/databases/" ++ (format_int db ++ (codes "/backups"))) none db
        (λ s. [] ∷ codes "v1" ∷ codes "databases" ∷ s ∷ codes "backups" ∷ []) h.1
        (sent_by u cred t saved _ "GET" _ _ _ h.0) (rw (split_id db (codes "backups")) refl)
        (λ c s. refl) refl refl

  pub db_rm-Reached :
      (db : ℤ) → Proper (db_rm db) → Reached mux (run u (db_rm db)) (meaning (db_rm db)) cred t
  unfolding cmd_db_rm fitting matched split text_beq read_body
  db_rm-Reached db h =
      id-Reached mux finds (run u (db_rm db)) (meaning (db_rm db)) cred t "DELETE"
        (codes "/v1/databases/" ++ (format_int db)) none db
        (λ s. [] ∷ codes "v1" ∷ codes "databases" ∷ s ∷ []) h.1
        (sent_by u cred t saved _ "DELETE" _ _ _ h.0) (rw (split_last db) refl) (λ c s. refl) refl
        refl
