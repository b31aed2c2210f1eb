-- ===== src/Store/Models.antt =====
-- internal/store/models.go, tokens.go, members.go, databases.go, envvars.go, domains.go, registry.go,
-- github_oauth.go, audit.go and usage.go: the rows of the tables. A number is the key of a row or a replica count; times are in the unit of
-- `Db.now`. A text that the program takes apart is a `Text`, one that it only compares a `String`.
use uran_api.Prelude.{ℕ, ℤ, String, Text, Bool, Option}

pub record User : Type 0 where
  pub id : ℕ
  pub email : Text
  pub password_hash : Text
  pub name : Text

pub record Session : Type 0 where
  pub token : Text
  pub user_id : ℕ
  pub expires_at : ℕ

-- A row of `api_tokens`.
pub record ApiToken : Type 0 where
  pub id : ℕ
  pub user_id : ℕ
  pub name : Text
  pub token_hash : Text
  pub prefix : Text
  pub created_at : ℕ
  pub last_used_at : Option ℕ

pub record Org : Type 0 where
  pub id : ℕ
  pub name : Text
  pub slug : Text

-- A row of `org_members`.
pub record Membership : Type 0 where
  pub org_id : ℕ
  pub user_id : ℕ
  pub role : String

pub record Project : Type 0 where
  pub id : ℕ
  pub org_id : ℕ
  pub name : Text
  pub slug : Text

pub record Service : Type 0 where
  pub id : ℕ
  pub project_id : ℕ
  pub name : Text
  pub slug : Text
  pub type : String
  pub repo_url : Text
  pub branch : Text
  pub schedule : Text
  pub replicas : ℤ
  pub instance_size : String
  pub health_path : Text
  pub min_replicas : ℤ
  pub max_replicas : ℤ
  pub disk_size : Text
  pub disk_path : Text
  pub suspended : Bool

pub record Deploy : Type 0 where
  pub id : ℕ
  pub service_id : ℕ
  pub status : String
  pub commit_sha : Text
  pub image : Text
  pub kind : String
  pub pr_number : Option ℤ
  pub created_at : ℕ
  pub updated_at : ℕ

pub record Build : Type 0 where
  pub id : ℕ
  pub deploy_id : ℕ
  pub status : String
  pub logs : Text
  pub started_at : Option ℕ
  pub ended_at : Option ℕ

pub record Database : Type 0 where
  pub id : ℕ
  pub project_id : ℕ
  pub name : Text
  pub slug : Text
  pub engine : String
  pub status : String
  pub tier : String
  pub instances : ℤ
  pub min_instances : ℤ
  pub max_instances : ℤ
  pub size : String
  pub storage : Text
  pub pooling : Bool
  pub backups : Bool
  pub connection_uri : Text
  pub read_uri : Text
  pub pooled_uri : Text

-- A row of `env_vars`.
pub record EnvVar : Type 0 where
  pub service_id : ℕ
  pub key : Text
  pub value : Text
  pub secret : Bool
  pub build_time : Bool

-- A row of `custom_domains`.
pub record CustomDomain : Type 0 where
  pub id : ℕ
  pub service_id : ℕ
  pub domain : Text

pub record RegistryCredential : Type 0 where
  pub id : ℕ
  pub org_id : ℕ
  pub registry : Text
  pub username : Text
  pub password : Text

-- A row of `github_connections`.
pub record GithubConnection : Type 0 where
  pub org_id : ℕ
  pub access_token : Text
  pub account_login : Text

-- What is to be written to the audit log.
pub record Auditing : Type 0 where
  pub actor_user_id : ℕ
  pub actor_email : Text
  pub method : String
  pub path : Text
  pub status : ℕ

-- A row of `audit_logs`.
pub record AuditLog : Type 0 where
  pub id : ℕ
  pub actor_user_id : ℕ
  pub actor_email : Text
  pub method : String
  pub path : Text
  pub status : ℕ
  pub created_at : ℕ

pub record UsageSample : Type 0 where
  pub cpu_millicores : ℕ
  pub memory_bytes : ℕ
  pub sampled_at : ℕ

-- A row of `usage_samples`.
pub record UsageRow : Type 0 where
  pub service_id : ℕ
  pub sample : UsageSample
