-- ===== src/Tests/Names.antt =====
-- Names and payloads at concrete inputs.
use uran_api.Prelude.{string_eq, ◌≡◌, refl, All}
use uran_api.Exec.{or_raise}
use uran_api.Go.Text.{codes}
use uran_api.Naming.{namespace_for_org, database_cluster}
use uran_api.K8s.{delete_redis, delete_postgres}
use uran_api.Store.{call}
use uran_api.Task.{stopped}
use uran_api.Controller.{teardown_database}
use uran_api.Controller.Payloads.{teardown_database-database_teardown}
use uran_api.Api.Payload.{database_teardown}
use uran_api.Api.Slug.{slugify}
use uran_api.Api.Slug.Alphabet.{InSlug, slugify-InSlug}
use uran_api.Tests.World.{ascii}

teardown_database-database_teardown_example :
    let namespace = namespace_for_org 3 in
    let cluster = database_cluster (codes "main") in
    (teardown_database (database_teardown namespace (codes "main") "redis")
      ≡ or_raise (call (delete_redis namespace cluster)) stopped)
    × (teardown_database (database_teardown namespace (codes "main") "postgres")
        ≡ or_raise (call (delete_postgres namespace cluster)) stopped)
teardown_database-database_teardown_example =
    teardown_database-database_teardown 3 (codes "main") (refl, (refl, (refl, (refl, tt))))

slugify-InSlug_example : All InSlug (slugify ascii (codes " My App! "))
slugify-InSlug_example = slugify-InSlug ascii (codes " My App! ")
