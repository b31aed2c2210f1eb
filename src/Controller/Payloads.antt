-- ===== src/Controller/Payloads.antt =====
-- The controller reads back what the API publishes: the payloads of package api, taken apart by the
-- handlers of processor.go.
use uran_api.Prelude.{
  ℕ, ◌≤◌, ℤ, pos, Text, ◌≡◌, refl, false, some, [], ◌∷◌, ◌++◌, arith, ◌==◌, text_eq, nat_eq,
  text_beq, All-map,
}
use uran_api.Exec.{or_raise}
use uran_api.Go.Text.{codes, split, split_n}
use uran_api.Go.Text.Laws.{Free, Free-append, cut-Free, cut-joined, split-Free, split-joined}
use uran_api.Go.Decimal.{format_nat, format_int, max_int64}
use uran_api.Go.Decimal.RoundTrip.{
  Digits, IsInt64, format_nat-Digits, parse_int-format_nat, parse_int-format_int,
}
use uran_api.Naming.{namespace_for_org, database_cluster}
use uran_api.K8s.{delete, delete_namespace, delete_redis, delete_postgres}
use uran_api.Store.{call}
use uran_api.Task.{stopped}
use uran_api.Api.Payload.{preview_teardown, namespace_teardown, service_teardown, database_teardown}
use uran_api.Controller.{parse_teardown, resource_teardown, teardown_database}

Digits-Free : (s : Text) → Digits s → Free b':' s
Digits-Free s d = All-map _ _ s (λ c h. no_colon c h.1) d
  where
    no_colon : (c : ℕ) → c ≤ b'9' → (c == b':') ≡ false
    no_colon c h = ground arith

-- A preview's teardown names the service and the pull request that the webhook named, if both
-- numbers fit 64 bits.
parse_teardown-preview_teardown :
    (service_id : ℕ) (pr_number : ℤ)
    → service_id ≤ max_int64
    → IsInt64 pr_number
    → parse_teardown (preview_teardown service_id pr_number) ≡ some (pos service_id, pr_number)
unfolding parse_teardown preview_teardown
parse_teardown-preview_teardown service_id pr_number hs hp = rw (
  cut-joined b':' (format_nat service_id) (format_int pr_number)
      (Digits-Free (format_nat service_id) (format_nat-Digits service_id)),
  parse_teardown,
  parse_int-format_nat service_id hs,
  parse_int-format_int pr_number hp,
)

namespace-Free : (org_id : ℕ) → Free b':' (namespace_for_org org_id)
unfolding namespace_for_org
namespace-Free org_id =
    Free-append b':' (codes "uran-org-") (format_nat org_id) (ground arith)
      (Digits-Free (format_nat org_id) (format_nat-Digits org_id))

-- The teardown payload of an org makes the controller delete the org's namespace.
pub resource_teardown-namespace :
    (org_id : ℕ)
    → resource_teardown (namespace_teardown (namespace_for_org org_id))
      ≡ or_raise (call (delete_namespace (namespace_for_org org_id))) stopped
unfolding resource_teardown namespace_teardown split_n text_beq
resource_teardown-namespace org_id =
    rw (cut-Free b':' (namespace_for_org org_id) (namespace-Free org_id), split_n) refl

-- The teardown payload of a service makes the controller delete the workload of that slug in the
-- org's namespace, whatever the slug holds.
pub resource_teardown-service :
    (org_id : ℕ) (slug : Text)
    → resource_teardown (service_teardown (namespace_for_org org_id) slug)
      ≡ or_raise (call (delete (namespace_for_org org_id) slug)) stopped
unfolding resource_teardown service_teardown split_n text_beq
resource_teardown-service org_id slug =
    rw (cut-joined b':' (namespace_for_org org_id) slug (namespace-Free org_id), split_n) refl

cluster-Free : (slug : Text) → Free b':' slug → Free b':' (database_cluster slug)
unfolding database_cluster
cluster-Free slug f = Free-append b':' (codes "db-") slug (ground arith) f

split-three :
    (a b c : Text)
    → Free b':' a
    → Free b':' b
    → Free b':' c
    → split b':' (a ++ (b':' ∷ (b ++ (b':' ∷ c)))) ≡ a ∷ b ∷ c ∷ []
split-three a b c fa fb fc =
    rw (split-joined b':' a (b ++ (b':' ∷ c)) fa, split-joined b':' b c fb, split-Free b':' c fc)

-- The teardown payload of a database makes the controller delete the instance of its engine under
-- its cluster's name in the org's namespace, if the slug holds no colon.
pub teardown_database-database_teardown :
    (org_id : ℕ) (slug : Text)
    → Free b':' slug
    → let namespace = namespace_for_org org_id in
      let cluster = database_cluster slug in
      (teardown_database (database_teardown namespace slug "redis")
        ≡ or_raise (call (delete_redis namespace cluster)) stopped)
      × (teardown_database (database_teardown namespace slug "postgres")
          ≡ or_raise (call (delete_postgres namespace cluster)) stopped)
unfolding teardown_database database_teardown text_beq
teardown_database-database_teardown org_id slug f = (
  rw
      (split-three (namespace_for_org org_id) (database_cluster slug) (codes "redis")
        (namespace-Free org_id) (cluster-Free slug f) (ground arith))
      refl,
  rw
      (split-three (namespace_for_org org_id) (database_cluster slug) (codes "postgres")
        (namespace-Free org_id) (cluster-Free slug f) (ground arith))
      refl,
)
