-- ===== src/Store/Deploys.antt =====
-- internal/store/deploys.go, builds.go and LatestImagedDeploy of settings.go.
use uran_api.Prelude.{
  ℕ, suc, ℤ, String, Text, Bool, not, ◌&&◌, Option, none, some, List, [], ◌∷◌, map, reverse, ◌++◌,
  ◌==◌, nat_eq, string_eq, text_eq, if◌then◌else◌, find, select, update, any, length,
}
use uran_api.Exec.{Result, ok, err, ◌>>=◌, ◌>>◌, guard}
use uran_api.Deploy.{
  status_queued, status_building, status_deploying, build_queued, build_succeeded, kind_production,
  kind_preview, can_transition,
}
use uran_api.Store.{Error, not_found, invalid_transition, violation, Db, Query, statement, query}
use uran_api.Store.Models.{Service, Deploy, Build, Project}

-- The one row of a query by key, `pgx.ErrNoRows` otherwise.
abbrev pub one_row : {A : Type 0} → Option A → Result Error A
one_row none = err not_found
one_row (some a) = ok a

abbrev pub has_id : ℕ → Deploy → Bool
has_id id d = d.id == id

abbrev pub service_exists : ℕ → Db → Bool
service_exists id db = any (λ (s : Service). s.id == id) db.services

abbrev pub new_build : Db → String → Text → Option ℕ → Build
new_build db status logs at = record {
  id = db.next_build;
  deploy_id = db.next_deploy;
  status = status;
  logs = logs;
  started_at = at;
  ended_at = at;
}

-- The two inserts of a transaction; the foreign key refuses an unknown service.
unfoldable pub insert_deploy : Deploy → Build → Db → Result Error (Deploy × Db)
insert_deploy d b db =
    if service_exists d.service_id db
    then ok (
      d,
      record db {
        deploys = d ∷ db.deploys;
        builds = b ∷ db.builds;
        next_deploy = suc db.next_deploy;
        next_build = suc db.next_build;
      },
    )
    else err violation

unfoldable pub new_deploy : Db → ℕ → String → Text → Text → String → Option ℤ → Deploy
new_deploy db service_id status commit_sha image kind pr_number = record {
  id = db.next_deploy;
  service_id = service_id;
  status = status;
  commit_sha = commit_sha;
  image = image;
  kind = kind;
  pr_number = pr_number;
  created_at = db.now;
  updated_at = db.now;
}

unfoldable pub create_buildable_deploy : ℕ → Text → String → Option ℤ → Query Deploy
unfolding insert_deploy new_deploy
create_buildable_deploy service_id commit_sha kind pr_number = statement λ db.
    insert_deploy (new_deploy db service_id status_queued commit_sha [] kind pr_number)
      (new_build db build_queued [] none) db

unfoldable pub create_deploy : ℕ → Text → Query Deploy
unfolding create_buildable_deploy
create_deploy service_id commit_sha =
    create_buildable_deploy service_id commit_sha kind_production none

unfoldable pub create_preview_deploy : ℕ → Text → ℤ → Query Deploy
unfolding create_buildable_deploy
create_preview_deploy service_id commit_sha pr_number =
    create_buildable_deploy service_id commit_sha kind_preview (some pr_number)

unfoldable pub create_imaged_deploy : ℕ → Text → Text → Text → Query Deploy
unfolding insert_deploy new_deploy
create_imaged_deploy service_id image commit_sha build_log = statement λ db.
    insert_deploy (new_deploy db service_id status_deploying commit_sha image kind_production none)
      (new_build db build_succeeded build_log (some db.now)) db

unfoldable pub deploy_by_id : ℕ → Query Deploy
deploy_by_id id = query λ db. one_row (find (has_id id) db.deploys)

unfoldable pub list_deploys : ℕ → Query (List Deploy)
list_deploys service_id =
    query λ db. ok (select (λ (d : Deploy). d.service_id == service_id) db.deploys)

-- `UPDATE … SET status = $2, updated_at = now() WHERE id = $1 RETURNING …`
abbrev pub with_status : String → ℕ → Deploy → Deploy
with_status to now d = record d { status = to; updated_at = now }

unfoldable pub set_status : ℕ → String → Query Deploy
set_status id to = statement λ db. elim (find (has_id id) db.deploys) [
  | none ↦ err not_found
  | some d ↦ ok (
    with_status to db.now d,
    record db { deploys = update (has_id id) (with_status to db.now) db.deploys },
  )
]

-- A read and a write, in two statements.
unfoldable pub update_deploy_status : ℕ → String → Query Deploy
unfolding deploy_by_id set_status
update_deploy_status id to = do
  current ← deploy_by_id id
  guard (can_transition current.status to) invalid_transition
  set_status id to

unfoldable pub queued_deploy_ids : Query (List ℕ)
queued_deploy_ids = query λ db. ok (
    map (λ (d : Deploy). d.id)
      (reverse (select (λ (d : Deploy). d.status == status_queued) db.deploys)))

-- One statement: the test and the write are atomic.
unfoldable pub claim_queued_deploy : ℕ → Query Bool
claim_queued_deploy id = statement λ db.
    let hit = λ (d : Deploy). has_id id d && d.status == status_queued in
    ok (
      length (select hit db.deploys) == 1,
      record db { deploys = update hit (with_status status_building db.now) db.deploys },
    )

unfoldable pub set_deploy_image : ℕ → Text → Query Unit
set_deploy_image id image = statement λ db. ok (
  tt,
  record db {
    deploys = update (has_id id) (λ d. record d { image = image; updated_at = db.now }) db.deploys;
  },
)

unfoldable pub latest_imaged_deploy : ℕ → Query Deploy
latest_imaged_deploy service_id = query λ db.
    one_row (find (λ (d : Deploy). d.service_id == service_id && not (d.image == [])) db.deploys)

-- The service, joined with its project for the org.
unfoldable pub service_by_id : ℕ → Query (Service × ℕ)
service_by_id id = query λ db. elim (find (λ (s : Service). s.id == id) db.services) [
  | none ↦ err not_found
  | some s ↦ elim (find (λ (p : Project). p.id == s.project_id) db.projects) [
    | none ↦ err not_found
    | some p ↦ ok (s, p.org_id)
  ]
]

unfoldable pub build_by_deploy_id : ℕ → Query Build
build_by_deploy_id deploy_id =
    query λ db. one_row (find (λ (b : Build). b.deploy_id == deploy_id) db.builds)

abbrev pub is_build : ℕ → Build → Bool
is_build id b = b.id == id

unfoldable pub start_build : ℕ → String → Query Unit
start_build id status = statement λ db. ok (
  tt,
  record db {
    builds =
        update (is_build id) (λ b. record b { status = status; started_at = some db.now })
          db.builds;
  },
)

unfoldable pub finish_build : ℕ → String → Query Unit
finish_build id status = statement λ db. ok (
  tt,
  record db {
    builds =
        update (is_build id) (λ b. record b { status = status; ended_at = some db.now }) db.builds;
  },
)

unfoldable pub append_build_log : ℕ → Text → Query Unit
append_build_log id chunk = statement λ db. ok (
  tt,
  record db { builds = update (is_build id) (λ b. record b { logs = b.logs ++ chunk }) db.builds },
)
