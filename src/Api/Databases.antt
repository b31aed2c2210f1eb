-- ===== src/Api/Databases.antt =====
-- internal/api/database_handlers.go.
pub mod Bounds
use uran_api.Prelude.{
  ℕ, ℤ, pos, String, Text, Bool, true, false, not, ◌&&◌, ◌||◌, Option, none, some, List, [],
  if◌then◌else◌, ◌==◌, string_eq, text_eq, lt_int, int_beq,
}
use uran_api.Exec.{
  Exec, Result, ok, err, pure, raise, ◌>>=◌, ◌>>◌, catch, try, or_raise, guard, lift,
}
use uran_api.Go.Text.{codes}
use uran_api.Go.Decimal.{format_nat}
use uran_api.Go.Unicode.{Unicode, trim_space}
use uran_api.Instance.{small, is_valid}
use uran_api.Naming.{namespace_for_org}
use uran_api.Store.{World, Error, Query, database_channel, database_teardown_channel, notify}
use uran_api.Store.Models.{Database}
use uran_api.Store.Databases.{
  NewDatabase, create_database, set_database_scaling, delete_database, list_databases,
  db_status_ready,
}
use uran_api.Api.Access.{
  Request, Refusal, refusal, Handler, decoded, require_project_access, require_database_access,
}
use uran_api.Api.Slug.{slugify}
use uran_api.Api.Payload.{database_teardown}
use uran_api.Api.Settings.{at_least_one}

pub record CreateDatabase : Type 0 where
  pub name : Text
  pub engine : String
  pub tier : String
  pub instances : ℤ
  pub min_instances : ℤ
  pub max_instances : ℤ
  pub size : String
  pub storage : Text
  pub pooling : Bool
  pub backups : Bool

unfoldable pub normalize_size_storage : String → Text → Result Refusal (String × Text)
normalize_size_storage size storage =
    let size' = if size == "" then small else size in
    if not (is_valid size')
    then err (refusal 400 (codes "invalid size (small|medium|large|xlarge|2xlarge)"))
    else ok (size', if storage == [] then codes "1Gi" else storage)

-- The defaults and the checks of the engine and the tier.
unfoldable pub checked_engine : CreateDatabase → Result Refusal (String × String)
checked_engine q =
    let engine = if q.engine == "" then "postgres" else q.engine in
    let tier = if q.tier == "" then "standard" else q.tier in
    if not (engine == "postgres") && not (engine == "redis")
    then err (refusal 400 (codes "unsupported engine (postgres|redis)"))
    else if not (tier == "standard") && not (tier == "autoscale")
    then err (refusal 400 (codes "tier must be standard or autoscale"))
    else if tier == "autoscale" && not (engine == "postgres")
    then err (refusal 400 (codes "autoscale tier is postgres-only"))
    else ok (engine, tier)

-- The instances and their bounds, as they depend on the tier.
unfoldable pub checked_instances : String → String → CreateDatabase → Result Refusal (ℤ × (ℤ × ℤ))
checked_instances engine tier q =
    let low = at_least_one q.min_instances in
    let n = at_least_one q.instances in
    if tier == "autoscale"
    then (if lt_int q.max_instances low
        then err (refusal 400 (codes "max_instances must be >= min_instances"))
        else ok (low, (low, q.max_instances)))
    else if engine == "redis" && not (int_beq n (pos 1))
    then err (refusal 400 (codes "redis supports a single instance"))
    else ok (n, (n, n))

module _ (u : Unicode) where
  unfoldable pub handle_create_database : Request → Text → Option CreateDatabase → Handler Database
  unfolding checked_engine normalize_size_storage checked_instances
  handle_create_database r param body = do
    project_id ← require_project_access r param
    q ← decoded body (codes "name required")
    guard (not (trim_space u q.name == [])) (refusal 400 (codes "name required"))
    e ← lift (checked_engine q)
    z ← lift (normalize_size_storage q.size q.storage)
    i ← lift (checked_instances e.0 e.1 q)
    let n : NewDatabase = record {
      name = q.name;
      slug = slugify u q.name;
      engine = e.0;
      tier = e.1;
      instances = i.0;
      min_instances = (i.1).0;
      max_instances = (i.1).1;
      size = z.0;
      storage = z.1;
      pooling = q.pooling && e.0 == "postgres";
      backups = q.backups && e.0 == "postgres";
    }
    db ←
        or_raise (create_database project_id n)
          (refusal 409 (codes "could not create database (slug may be taken)"))
    try {F = Refusal} (notify database_channel (format_nat db.id))
    pure db

unfoldable pub handle_list_databases : Request → Text → Handler (List Database)
handle_list_databases r param = do
  project_id ← require_project_access r param
  or_raise (list_databases project_id) (refusal 500 (codes "could not list databases"))

unfoldable pub handle_get_database : Request → Text → Handler Database
handle_get_database r param = do d ← require_database_access r param; pure d.0

-- The three URIs; an empty one is left out of the answer.
unfoldable pub handle_database_connection : Request → Text → Handler (Text × (Text × Text))
handle_database_connection r param = do
  d ← require_database_access r param
  let db = d.0
  guard (not (not (db.status == db_status_ready) || db.connection_uri == []))
      (refusal 409 (codes "database not ready"))
  pure (db.connection_uri, (db.read_uri, db.pooled_uri))

pub record ScaleDatabase : Type 0 where
  pub instances : ℤ
  pub size : String
  pub storage : Text

-- What `handleScaleDatabase` stores.
unfoldable pub checked_database_scale : Database → ScaleDatabase → Result Refusal ScaleDatabase
unfolding normalize_size_storage
checked_database_scale db q =
    let n = at_least_one (if int_beq q.instances (pos 0) then db.instances else q.instances) in
    elim (normalize_size_storage (if q.size == "" then db.size else q.size)
      (if q.storage == [] then db.storage else q.storage)) [
        | err e ↦ err e
        | ok (size, storage) ↦
            if db.engine == "redis" && not (int_beq n (pos 1))
            then err (refusal 400 (codes "redis supports a single instance"))
            else ok (record { instances = n; size = size; storage = storage })
      ]

unfoldable pub handle_scale_database : Request → Text → Option ScaleDatabase → Handler Unit
unfolding checked_database_scale
handle_scale_database r param body = do
  d ← require_database_access r param
  q ← decoded body (codes "invalid body")
  z ← lift (checked_database_scale d.0 q)
  or_raise (set_database_scaling (d.0).id z.instances z.size z.storage)
      (refusal 500 (codes "could not scale database"))
  try {F = Refusal} (notify database_channel (format_nat (d.0).id))
  pure tt

-- The controller is told to deprovision before the record goes.
unfoldable pub handle_delete_database : Request → Text → Handler Unit
handle_delete_database r param = do
  d ← require_database_access r param
  let payload = database_teardown (namespace_for_org d.1) (d.0).slug (d.0).engine
  try {F = Refusal} (notify database_teardown_channel payload)
  or_raise (delete_database (d.0).id) (refusal 500 (codes "could not delete database"))
