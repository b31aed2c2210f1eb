-- ===== src/Store/Databases.antt =====
-- internal/store/databases.go: managed databases.
use uran_api.Prelude.{
  ℕ, suc, ℤ, String, Text, Bool, false, not, ◌&&◌, Option, none, some, List, [], ◌∷◌, reverse, ◌==◌,
  nat_eq, string_eq, text_eq, if◌then◌else◌, find, select, update, discard, any,
}
use uran_api.Exec.{ok, err}
use uran_api.Store.{not_found, violation, Db, Query, statement, query}
use uran_api.Store.Models.{Project, Database}

abbrev pub db_status_creating : String
db_status_creating = "creating"

abbrev pub db_status_ready : String
db_status_ready = "ready"

abbrev pub db_status_failed : String
db_status_failed = "failed"

abbrev pub is_database : ℕ → Database → Bool
is_database id d = d.id == id

-- What a request chooses of a new database.
pub record NewDatabase : Type 0 where
  pub name : Text
  pub slug : Text
  pub engine : String
  pub tier : String
  pub instances : ℤ
  pub min_instances : ℤ
  pub max_instances : ℤ
  pub size : String
  pub storage : Text
  pub pooling : Bool
  pub backups : Bool

unfoldable pub new_database : ℕ → ℕ → NewDatabase → Database
new_database id project_id n = record {
  id = id;
  project_id = project_id;
  name = n.name;
  slug = n.slug;
  engine = n.engine;
  status = db_status_creating;
  tier = n.tier;
  instances = n.instances;
  min_instances = n.min_instances;
  max_instances = n.max_instances;
  size = n.size;
  storage = n.storage;
  pooling = n.pooling;
  backups = n.backups;
  connection_uri = [];
  read_uri = [];
  pooled_uri = [];
}

unfoldable pub create_database : ℕ → NewDatabase → Query Database
unfolding new_database
create_database project_id n = statement λ db.
    let d = new_database db.next_database project_id n in
    if any (λ (p : Project). p.id == project_id) db.projects
      && not (any (λ (x : Database). x.project_id == project_id && x.slug == n.slug) db.databases)
    then ok (d, record db { databases = d ∷ db.databases; next_database = suc db.next_database })
    else err violation

-- A database row with its org.
unfoldable pub with_org : Db → Database → Option (Database × ℕ)
with_org db d = elim (find (λ (p : Project). p.id == d.project_id) db.projects) [
  | none ↦ none
  | some p ↦ some (d, p.org_id)
]

-- The columns that the query for the autoscaler does not select stay at Go's zero values.
abbrev unselected : Database → Database
unselected d = record d { pooling = false; backups = false; pooled_uri = [] }

unfoldable pub joined : Db → List Database → List (Database × ℕ)
unfolding with_org
joined db [] = []
joined db (d ∷ ds) = elim (with_org db (unselected d)) [
  | none ↦ joined db ds
  | some r ↦ r ∷ joined db ds
]

unfoldable pub list_autoscale_databases : Query (List (Database × ℕ))
unfolding joined
list_autoscale_databases = query λ db. ok (
    joined db (
      select (λ (d : Database). d.tier == "autoscale" && d.status == db_status_ready) db.databases))

-- `UPDATE databases SET … WHERE id = $1`
unfoldable pub update_database : ℕ → (Database → Database) → Query Unit
update_database id f =
    statement λ db. ok (tt, record db { databases = update (is_database id) f db.databases })

unfoldable pub set_database_instances : ℕ → ℤ → Query Unit
unfolding update_database
set_database_instances id instances = update_database id λ d. record d { instances = instances }

unfoldable pub database_by_id : ℕ → Query (Database × ℕ)
unfolding with_org
database_by_id id = query λ db. elim (find (is_database id) db.databases) [
  | none ↦ err not_found
  | some d ↦ elim (with_org db d) [ none ↦ err not_found | some r ↦ ok r ]
]

unfoldable pub set_database_scaling : ℕ → ℤ → String → Text → Query Unit
unfolding update_database
set_database_scaling id instances size storage = update_database id λ d. record d {
  instances = instances;
  size = size;
  storage = storage;
  status = db_status_creating;
}

unfoldable pub list_databases : ℕ → Query (List Database)
list_databases project_id =
    query λ db. ok (reverse (select (λ (d : Database). d.project_id == project_id) db.databases))

unfoldable pub set_database_status : ℕ → String → Query Unit
unfolding update_database
set_database_status id status = update_database id λ d. record d { status = status }

unfoldable pub set_database_connection : ℕ → Text → Text → Text → Query Unit
unfolding update_database
set_database_connection id uri read_uri pooled_uri = update_database id λ d. record d {
  connection_uri = uri;
  read_uri = read_uri;
  pooled_uri = pooled_uri;
  status = db_status_ready;
}

unfoldable pub delete_database : ℕ → Query Unit
delete_database id =
    statement λ db. ok (tt, record db { databases = discard (is_database id) db.databases })
