-- ===== src/Naming.antt =====
-- internal/naming/naming.go: the names of Kubernetes objects.
pub mod Collisions
use uran_api.Prelude.{ℕ, ℤ, String, Text, Option, none, some, ◌++◌, ◌==◌, string_eq, if◌then◌else◌}
use uran_api.Go.Text.{codes}
use uran_api.Go.Decimal.{format_nat, format_int}
use uran_api.Deploy.{kind_preview}

unfoldable pub namespace_for_org : ℕ → Text
namespace_for_org org_id = codes "uran-org-" ++ format_nat org_id

unfoldable pub workload_name : Text → String → Option ℤ → Text
workload_name slug kind none = slug
workload_name slug kind (some pr_number) =
    if kind == kind_preview then slug ++ (codes "-pr-" ++ format_int pr_number) else slug

unfoldable pub database_cluster : Text → Text
database_cluster slug = codes "db-" ++ slug
