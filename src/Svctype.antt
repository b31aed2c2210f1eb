-- ===== src/Svctype.antt =====
-- internal/svctype/svctype.go: the kinds of services.
use uran_api.Prelude.{String, Bool, ◌||◌, ◌==◌, string_eq}

abbrev pub web : String
web = "web"

abbrev pub static : String
static = "static"

abbrev pub worker : String
worker = "worker"

abbrev pub cron : String
cron = "cron"

unfoldable pub is_valid : String → Bool
is_valid t = t == web || (t == static || (t == worker || t == cron))

unfoldable pub requires_schedule : String → Bool
requires_schedule t = t == cron

unfoldable pub is_routable : String → Bool
is_routable t = t == web || t == static
