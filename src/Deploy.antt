-- ===== src/Deploy.antt =====
-- internal/deploy/state.go: the lifecycle of a deploy.
pub mod Lifecycle
use uran_api.Prelude.{
  ℕ, String, Bool, true, false, List, [], ◌∷◌, length, ◌==◌, nat_eq, string_eq, if◌then◌else◌,
}

abbrev pub status_queued : String
status_queued = "queued"

abbrev pub status_building : String
status_building = "building"

abbrev pub status_deploying : String
status_deploying = "deploying"

abbrev pub status_live : String
status_live = "live"

abbrev pub status_failed : String
status_failed = "failed"

abbrev pub build_queued : String
build_queued = "queued"

abbrev pub build_running : String
build_running = "running"

abbrev pub build_succeeded : String
build_succeeded = "succeeded"

abbrev pub build_failed : String
build_failed = "failed"

abbrev pub kind_production : String
kind_production = "production"

abbrev pub kind_preview : String
kind_preview = "preview"

-- The map literal; a key that it lacks gives the empty list.
unfoldable pub transitions : String → List String
transitions from =
    if from == status_queued
    then status_building ∷ status_failed ∷ []
    else if from == status_building
    then status_deploying ∷ status_failed ∷ []
    else if from == status_deploying
    then status_live ∷ status_failed ∷ []
    else []

-- The range loop of `CanTransition`.
unfoldable pub allowed_by : List String → String → Bool
allowed_by [] to = false
allowed_by (allowed ∷ rest) to = if allowed == to then true else allowed_by rest to

unfoldable pub can_transition : String → String → Bool
unfolding transitions allowed_by
can_transition from to = allowed_by (transitions from) to

unfoldable pub is_terminal : String → Bool
unfolding transitions
is_terminal status = length (transitions status) == 0
