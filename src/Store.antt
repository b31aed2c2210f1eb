-- ===== src/Store.antt =====
-- internal/store: the database behind all four processes, and the world that they share. A statement
-- or a transaction is one step on the tables; whether the n-th request to the database or the cluster
-- fails is `down n`, and a statement that fails changes nothing. A table is kept newest first, so that
-- `ORDER BY id DESC` is its own order.
pub mod Models
pub mod Deploys
pub mod Members
pub mod Accounts
pub mod Tenants
pub mod Services
pub mod Attachments
pub mod Databases
pub mod Reports
pub mod Repos
pub mod Rows
pub mod Through
pub mod Lineage
use uran_api.Prelude.{ℕ, suc, String, Text, Bool, false, ◌≡◌, List, ◌∷◌, if◌then◌else◌}
use uran_api.Exec.{Result, ok, err, Exec}
use uran_api.K8s.{Call}
use Models.{
  User, Session, ApiToken, Org, Membership, Project, Service, Deploy, Build, Database, EnvVar,
  CustomDomain, RegistryCredential, GithubConnection, AuditLog, UsageRow, Auditing,
}

pub data Error : Type 0 where
  -- `ErrNotFound` (or pgx's no rows), `ErrInvalidTransition`, `ErrDuplicate`, any other violated
  -- constraint, and any failure of the connection.
  not_found invalid_transition duplicate violation unavailable : Error

pub record Db : Type 0 where
  pub users : List User
  pub sessions : List Session
  pub api_tokens : List ApiToken
  pub orgs : List Org
  pub members : List Membership
  pub projects : List Project
  pub services : List Service
  pub deploys : List Deploy
  pub builds : List Build
  pub databases : List Database
  pub env_vars : List EnvVar
  pub domains : List CustomDomain
  pub registry_credentials : List RegistryCredential
  pub github_connections : List GithubConnection
  pub audit_logs : List AuditLog
  pub usage_samples : List UsageRow
  -- The next value of each table's identity column.
  pub next_user : ℕ
  pub next_api_token : ℕ
  pub next_org : ℕ
  pub next_project : ℕ
  pub next_service : ℕ
  pub next_deploy : ℕ
  pub next_build : ℕ
  pub next_database : ℕ
  pub next_domain : ℕ
  pub next_registry_credential : ℕ
  pub next_audit_log : ℕ
  -- What `now()` gives.
  pub now : ℕ

-- internal/store/events.go: the NOTIFY channels.
pub data Channel : Type 0 where
  deploy_channel deployment_channel teardown_channel resource_teardown_channel : Channel
  database_channel database_teardown_channel database_backup_channel : Channel

pub record Note : Type 0 where
  pub channel : Channel
  pub payload : Text

pub record World : Type 0 where
  pub db : Db
  pub open db use *
  -- What was published, newest first.
  pub notes : List Note
  -- What the cluster was asked to do, newest first.
  pub calls : List Call
  pub down : ℕ → Bool
  -- How many requests were sent so far.
  pub sent : ℕ
  -- The goroutines that were started to write an entry of the audit log, newest first.
  pub started : List Auditing

-- No request fails from here on.
abbrev pub Healthy : World → Type 0
Healthy w = (n : ℕ) → w.down n ≡ false

abbrev pub Query : Type 0 → Type 0
Query A = Exec World Error A

module _ {A : Type 0} where
  abbrev settle : World → Result Error (A × Db) → Result Error A × World
  settle w (ok (a, db)) = (ok a, record w { db = db })
  settle w (err e) = (err e, w)

  -- One round trip.
  unfoldable pub statement : (Db → Result Error (A × Db)) → Query A
  statement f w =
      let w' = record w { sent = suc w.sent } in
      if w.down w.sent then (err unavailable, w') else settle w' (f w.db)

  -- A statement that only reads.
  unfoldable pub query : (Db → Result Error A) → Query A
  query f w =
      let w' = record w { sent = suc w.sent } in
      if w.down w.sent then (err unavailable, w') else (f w.db, w')

-- `Notify`
unfoldable pub notify : Channel → Text → Query Unit
notify channel payload w =
    let w' = record w { sent = suc w.sent } in
    if w.down w.sent
    then (err unavailable, w')
    else (ok tt, record w' { notes = record { channel = channel; payload = payload } ∷ w.notes })

-- A request to the cluster. It is recorded whether or not it fails.
unfoldable pub call : Call → Query Unit
call c w =
    let w' = record w { sent = suc w.sent; calls = c ∷ w.calls } in
    if w.down w.sent then (err unavailable, w') else (ok tt, w')
