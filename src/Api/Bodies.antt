-- ===== src/Api/Bodies.antt =====
-- internal/api: the bodies that `readJSON` takes, from the struct of each handler; `none` is a body
-- that it refuses.
use uran_api.Prelude.{String, Text, Option, none, some, [], ◌∷◌}
use uran_api.Go.Json.{Json, obj, value_of, text_field, bool_field, int32_field, struct_of}
use uran_api.Go.Spelling.{spell}
use uran_api.Api.Accounts.{Register, Login}
use uran_api.Api.Attachments.{SetEnv, AddRegistry}
use uran_api.Api.Databases.{CreateDatabase, ScaleDatabase}
use uran_api.Api.Members.{AddMember}
use uran_api.Api.Resources.{CreateService}
use uran_api.Api.Settings.{Scale, Disk}

infixl 5 ◌>>=◌
abbrev ◌>>=◌ : {A B : Type 0} → Option A → (A → Option B) → Option B
none >>= k = none
some a >>= k = k a

-- A struct with one field, a text.
unfoldable pub read_text : String → Option Json → Option Text
unfolding struct_of text_field value_of
read_text key body = do ms ← struct_of (key ∷ []) body; text_field (value_of key ms)

unfoldable pub read_word : String → Option Json → Option String
unfolding read_text spell
read_word key body = do s ← read_text key body; some (spell s)

-- The error is ignored, and what was read before it stays.
unfoldable pub read_commit : Option Json → Text
unfolding text_field value_of
read_commit (some (obj ms)) = elim (text_field (value_of "commit_sha" ms)) [
  | some s ↦ s
  | none ↦ []
]
read_commit _ = []

unfoldable pub read_register : Option Json → Option Register
unfolding struct_of text_field value_of
read_register body = do
  ms ← struct_of ("email" ∷ "password" ∷ "name" ∷ []) body
  email ← text_field (value_of "email" ms)
  password ← text_field (value_of "password" ms)
  name ← text_field (value_of "name" ms)
  some (record { email = email; password = password; name = name })

unfoldable pub read_login : Option Json → Option Login
unfolding struct_of text_field value_of
read_login body = do
  ms ← struct_of ("email" ∷ "password" ∷ []) body
  email ← text_field (value_of "email" ms)
  password ← text_field (value_of "password" ms)
  some (record { email = email; password = password })

unfoldable pub read_service : Option Json → Option CreateService
unfolding struct_of text_field value_of spell
read_service body = do
  ms ← struct_of ("name" ∷ "type" ∷ "repo_url" ∷ "branch" ∷ "schedule" ∷ []) body
  name ← text_field (value_of "name" ms)
  type ← text_field (value_of "type" ms)
  repo_url ← text_field (value_of "repo_url" ms)
  branch ← text_field (value_of "branch" ms)
  schedule ← text_field (value_of "schedule" ms)
  some (record {
    name = name;
    type = spell type;
    repo_url = repo_url;
    branch = branch;
    schedule = schedule;
  })

unfoldable pub read_env : Option Json → Option SetEnv
unfolding struct_of text_field bool_field value_of
read_env body = do
  ms ← struct_of ("key" ∷ "value" ∷ "secret" ∷ "build_time" ∷ []) body
  key ← text_field (value_of "key" ms)
  value ← text_field (value_of "value" ms)
  secret ← bool_field (value_of "secret" ms)
  build_time ← bool_field (value_of "build_time" ms)
  some (record { key = key; value = value; secret = secret; build_time = build_time })

unfoldable pub read_registry : Option Json → Option AddRegistry
unfolding struct_of text_field value_of
read_registry body = do
  ms ← struct_of ("registry" ∷ "username" ∷ "password" ∷ []) body
  registry ← text_field (value_of "registry" ms)
  username ← text_field (value_of "username" ms)
  password ← text_field (value_of "password" ms)
  some (record { registry = registry; username = username; password = password })

unfoldable pub read_member : Option Json → Option AddMember
unfolding struct_of text_field value_of spell
read_member body = do
  ms ← struct_of ("email" ∷ "role" ∷ []) body
  email ← text_field (value_of "email" ms)
  role ← text_field (value_of "role" ms)
  some (record { email = email; role = spell role })

unfoldable pub read_scale : Option Json → Option Scale
unfolding struct_of text_field int32_field value_of spell
read_scale body = do
  ms ← struct_of ("replicas" ∷ "instance_size" ∷ "min_replicas" ∷ "max_replicas" ∷ []) body
  replicas ← int32_field (value_of "replicas" ms)
  instance_size ← text_field (value_of "instance_size" ms)
  min_replicas ← int32_field (value_of "min_replicas" ms)
  max_replicas ← int32_field (value_of "max_replicas" ms)
  some (record {
    replicas = replicas;
    instance_size = spell instance_size;
    min_replicas = min_replicas;
    max_replicas = max_replicas;
  })

unfoldable pub read_disk : Option Json → Option Disk
unfolding struct_of text_field value_of
read_disk body = do
  ms ← struct_of ("size" ∷ "path" ∷ []) body
  size ← text_field (value_of "size" ms)
  path ← text_field (value_of "path" ms)
  some (record { size = size; path = path })

unfoldable pub read_database : Option Json → Option CreateDatabase
unfolding struct_of text_field bool_field int32_field value_of spell
read_database body = do
  ms ←
      struct_of
        ("name" ∷ "engine" ∷ "tier" ∷ "instances" ∷ "min_instances" ∷ "max_instances" ∷ "size"
          ∷ "storage" ∷ "pooling" ∷ "backups" ∷ [])
        body
  name ← text_field (value_of "name" ms)
  engine ← text_field (value_of "engine" ms)
  tier ← text_field (value_of "tier" ms)
  instances ← int32_field (value_of "instances" ms)
  min_instances ← int32_field (value_of "min_instances" ms)
  max_instances ← int32_field (value_of "max_instances" ms)
  size ← text_field (value_of "size" ms)
  storage ← text_field (value_of "storage" ms)
  pooling ← bool_field (value_of "pooling" ms)
  backups ← bool_field (value_of "backups" ms)
  some (record {
    name = name;
    engine = spell engine;
    tier = spell tier;
    instances = instances;
    min_instances = min_instances;
    max_instances = max_instances;
    size = spell size;
    storage = storage;
    pooling = pooling;
    backups = backups;
  })

unfoldable pub read_database_scale : Option Json → Option ScaleDatabase
unfolding struct_of text_field int32_field value_of spell
read_database_scale body = do
  ms ← struct_of ("instances" ∷ "size" ∷ "storage" ∷ []) body
  instances ← int32_field (value_of "instances" ms)
  size ← text_field (value_of "size" ms)
  storage ← text_field (value_of "storage" ms)
  some (record { instances = instances; size = spell size; storage = storage })
