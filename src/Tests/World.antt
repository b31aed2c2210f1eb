-- ===== src/Tests/World.antt =====
-- A small world: one service with its deploys, one owner, and a backend that succeeds.
use uran_api.Prelude.{
  ◌≡◌, ℕ, ◌+◌, pos, string_eq, if◌then◌else◌, String, Text, true, false, none, some, List, [], ◌∷◌,
  refl, arith,
}
use uran_api.Exec.{ok}
use uran_api.Go.Text.{codes}
use uran_api.Go.Unicode.{Unicode, is_blank, is_upper}
use uran_api.Deploy.{status_queued}
use uran_api.Rbac.{owner}
use uran_api.K8s.Wire.{Wire, done}
use uran_api.K8s.Workload.{Rollout, rollout_complete}
use uran_api.Store.{World}
use uran_api.Store.Models.{Service, Deploy, Build, Database}
use uran_api.Store.Lineage.{Falling}
use uran_api.Builder.{Request, Backend}

abbrev pub svc : Service
svc = record {
  id = 1;
  project_id = 1;
  name = codes "Web";
  slug = codes "web";
  type = "web";
  repo_url = codes "https://git/web";
  branch = codes "main";
  schedule = [];
  replicas = pos 1;
  instance_size = "small";
  health_path = [];
  min_replicas = pos 0;
  max_replicas = pos 0;
  disk_size = [];
  disk_path = [];
  suspended = false;
}

abbrev pub row : ℕ → String → Text → Deploy
row id status image = record {
  id = id;
  service_id = 1;
  status = status;
  commit_sha = codes "abc";
  image = image;
  kind = "production";
  pr_number = none;
  created_at = 0;
  updated_at = 0;
}

abbrev pub build_row : Build
build_row = record {
  id = 1;
  deploy_id = 1;
  status = "queued";
  logs = [];
  started_at = none;
  ended_at = none;
}

abbrev pub world_of : List Deploy → World
world_of ds = record {
  db = record {
    users =
        record { id = 7; email = codes "a@b"; password_hash = codes "h"; name = codes "A" } ∷ [];
    sessions = [];
    api_tokens = [];
    orgs = record { id = 3; name = codes "O"; slug = codes "o" } ∷ [];
    members = record { org_id = 3; user_id = 7; role = owner } ∷ [];
    projects = record { id = 1; org_id = 3; name = codes "P"; slug = codes "p" } ∷ [];
    services = svc ∷ [];
    deploys = ds;
    builds = build_row ∷ [];
    databases = [];
    env_vars = [];
    domains = [];
    registry_credentials = [];
    github_connections = [];
    audit_logs = [];
    usage_samples = [];
    next_user = 8;
    next_api_token = 1;
    next_org = 4;
    next_project = 2;
    next_service = 2;
    next_deploy = 3;
    next_build = 2;
    next_database = 1;
    next_domain = 1;
    next_registry_credential = 1;
    next_audit_log = 1;
    now = 9;
  };
  notes = [];
  calls = [];
  down = λ n. false;
  sent = 0;
  started = [];
}

abbrev pub start : World
start = world_of (row 1 status_queued [] ∷ [])

abbrev pub postgres : Database
postgres = record {
  id = 1;
  project_id = 1;
  name = codes "Main";
  slug = codes "main";
  engine = "postgres";
  status = "ready";
  tier = "autoscale";
  instances = pos 2;
  min_instances = pos 1;
  max_instances = pos 3;
  size = "small";
  storage = codes "1Gi";
  pooling = false;
  backups = true;
  connection_uri = [];
  read_uri = [];
  pooled_uri = [];
}

abbrev pub backend : Backend
backend = record { chunks = λ r. codes "step 1" ∷ []; outcome = λ r ws. ok (Request.image r) }

-- ASCII alone.
abbrev pub ascii : Unicode
ascii = record {
  is_space = is_blank;
  to_lower = λ c. if is_upper c then c + 32 else c;
  is_space_ascii = λ c h. refl;
  to_lower_ascii = λ c h. refl;
}

pub start-Falling : Falling start.next_deploy start.deploys
start-Falling = (omega arith, tt)

abbrev pub a_rollout : Rollout
a_rollout = record {
  replicas = some (pos 1);
  generation = 1;
  observed_generation = 1;
  updated_replicas = pos 1;
  available_replicas = pos 1;
}

pub a_rollout_complete : rollout_complete a_rollout ≡ true
unfolding rollout_complete
a_rollout_complete = refl

abbrev pub a_wire : Wire
a_wire = record { log = []; answers = λ n. done; sent = 0; quantity = λ size. true }
