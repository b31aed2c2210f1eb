-- ===== src/Api/Databases/Bounds.antt =====
-- The numbers of instances that the database handlers store.
use uran_api.Prelude.{
  ℤ, pos, negsuc, ◌≤ℤ◌, String, ◌≡◌, ◌⊎◌, true, false, arith, ◌==◌, string_eq, text_eq,
  if◌then◌else◌, lt_int-le, int_beq,
}
use uran_api.Exec.{ok}
use uran_api.Instance.{is_valid}
use uran_api.Store.Models.{Database}
use uran_api.Api.Settings.{at_least_one}
use uran_api.Api.Settings.Bounds.{at_least_one-le}
use uran_api.Api.Databases.{
  CreateDatabase, ScaleDatabase, checked_instances, checked_database_scale, normalize_size_storage,
}

le_rfl : (n : ℤ) → n ≤ℤ n
le_rfl n = omega arith

int_beq-eq : (n : ℤ) → int_beq n (pos 1) ≡ true → n ≡ pos 1
int_beq-eq (pos n) h = ground arith
int_beq-eq (negsuc n) h = ground arith

-- What a new database starts with is within its bounds, which begin at one at the earliest, and a
-- new Redis database of the standard tier has one instance.
pub checked_instances-bounds :
    (engine tier : String) (q : CreateDatabase) (n low high : ℤ)
    → checked_instances engine tier q ≡ ok (n, (low, high))
    → (pos 1 ≤ℤ low)
      × (low ≤ℤ n)
      × (n ≤ℤ high)
      × (((engine == "redis") ≡ false) ⊎ (((tier == "autoscale") ≡ true) ⊎ (n ≡ pos 1)))
unfolding checked_instances
checked_instances-bounds engine tier q n low high e = ground (
  arith,
  at_least_one-le q.instances,
  at_least_one-le q.min_instances,
  le_rfl n,
  le_rfl low,
  lt_int-le q.max_instances (at_least_one q.min_instances),
  int_beq-eq (at_least_one q.instances),
)

-- What a scaling request stores has at least one instance, exactly one for Redis, and a known size.
pub checked_database_scale-bounds :
    (db : Database) (req q : ScaleDatabase)
    → checked_database_scale db req ≡ ok q
    → (pos 1 ≤ℤ q.instances)
      × (is_valid q.size ≡ true)
      × (((db.engine == "redis") ≡ false) ⊎ (q.instances ≡ pos 1))
unfolding checked_database_scale normalize_size_storage
checked_database_scale-bounds db req q e = ground (
  arith,
  at_least_one-le (if int_beq req.instances (pos 0) then db.instances else req.instances),
  int_beq-eq (at_least_one (if int_beq req.instances (pos 0) then db.instances else req.instances)),
)
