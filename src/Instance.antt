-- ===== src/Instance.antt =====
-- internal/instance/instance.go: the named sizes. A quantity is kept as the number of its unit: CPU
-- in thousandths of a core (`"1"` is 1000m), memory in Mi (`"1Gi"` is 1024Mi).
use uran_api.Prelude.{
  ℕ, String, Bool, true, false, Option, none, some, ◌==◌, string_eq, if◌then◌else◌,
}

abbrev pub small : String
small = "small"

abbrev pub medium : String
medium = "medium"

abbrev pub large : String
large = "large"

abbrev pub xlarge : String
xlarge = "xlarge"

abbrev pub xxlarge : String
xxlarge = "2xlarge"

pub record Resources : Type 0 where
  pub cpu_request : ℕ
  pub mem_request : ℕ
  pub cpu_limit : ℕ
  pub mem_limit : ℕ

abbrev resources : ℕ → ℕ → ℕ → ℕ → Resources
resources a b c d = record { cpu_request = a; mem_request = b; cpu_limit = c; mem_limit = d }

unfoldable pub sizes : String → Option Resources
sizes s =
    if s == small
    then some (resources 50 64 250 256)
    else if s == medium
    then some (resources 250 256 1000 512)
    else if s == large
    then some (resources 500 512 2000 1024)
    else if s == xlarge
    then some (resources 1000 1024 4000 4096)
    else if s == xxlarge
    then some (resources 2000 2048 8000 8192)
    else none

unfoldable pub is_valid : String → Bool
unfolding sizes
is_valid s = elim (sizes s) [ none ↦ false | some _ ↦ true ]

-- An unknown size falls back to the smallest.
unfoldable pub get : String → Resources
unfolding sizes
get s = elim (sizes s) [ some r ↦ r | none ↦ resources 50 64 250 256 ]
