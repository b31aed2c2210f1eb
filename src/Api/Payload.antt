-- ===== src/Api/Payload.antt =====
-- The payloads that the handlers publish for the controller, as their Sprintf calls build them:
-- webhook_handlers.go, resource_handlers.go and database_handlers.go.
use uran_api.Prelude.{ℕ, ℤ, String, Text, ◌++◌}
use uran_api.Go.Text.{codes}
use uran_api.Go.Decimal.{format_nat, format_int}
use uran_api.Naming.{database_cluster}

-- "<serviceID>:<pr>"
unfoldable pub preview_teardown : ℕ → ℤ → Text
preview_teardown service_id pr_number = format_nat service_id ++ (codes ":" ++ format_int pr_number)

-- "ns:<namespace>"
unfoldable pub namespace_teardown : Text → Text
namespace_teardown namespace = codes "ns:" ++ namespace

-- "svc:<namespace>:<slug>"
unfoldable pub service_teardown : Text → Text → Text
service_teardown namespace slug = codes "svc:" ++ (namespace ++ (codes ":" ++ slug))

-- "<namespace>:<cluster>:<engine>"
unfoldable pub database_teardown : Text → Text → String → Text
database_teardown namespace slug engine =
    namespace ++ (codes ":" ++ (database_cluster slug ++ (codes ":" ++ codes engine)))
