-- ===== src/Naming/Collisions.antt =====
-- Which names of workloads and namespaces are kept apart, and which are not.
use uran_api.Prelude.{ℕ, ◌≤◌, ℤ, Text, ◌≡◌, refl, Option, none, some, ◌++◌}
use uran_api.Go.Text.{codes}
use uran_api.Go.Text.Laws.{cut_prefix-append}
use uran_api.Go.Decimal.{format_nat, format_int, max_int64}
use uran_api.Go.Decimal.RoundTrip.{parse_int-format_nat, parse_int-format_int, IsInt64}
use uran_api.Deploy.{kind_preview, kind_production}
use uran_api.Naming.{namespace_for_org, workload_name}

-- What two texts with a common prefix have behind it.
append_left_cancel : (p s t : Text) → p ++ s ≡ p ++ t → s ≡ t
append_left_cancel p s t e = cc (cut_prefix-append p s, cut_prefix-append p t, e)

-- Two orgs with 64-bit ids never share a namespace.
pub namespace_for_org-injective :
    (i j : ℕ) → i ≤ max_int64 → j ≤ max_int64 → namespace_for_org i ≡ namespace_for_org j → i ≡ j
unfolding namespace_for_org
namespace_for_org-injective i j hi hj e = cc (
  append_left_cancel (codes "uran-org-") (format_nat i) (format_nat j) e,
  parse_int-format_nat i hi,
  parse_int-format_nat j hj,
)

-- Previews of one service for two pull requests, with 64-bit numbers, never share a name.
workload_name-injective :
    (slug : Text) (m n : ℤ)
    → IsInt64 m
    → IsInt64 n
    → workload_name slug kind_preview (some m) ≡ workload_name slug kind_preview (some n)
    → m ≡ n
unfolding workload_name
workload_name-injective slug m n hm hn e = cc (
  append_left_cancel (codes "-pr-") (format_int m) (format_int n)
      (append_left_cancel slug (codes "-pr-" ++ format_int m) (codes "-pr-" ++ format_int n) e),
  parse_int-format_int m hm,
  parse_int-format_int n hn,
)

-- The production workload of a service whose slug is another's with "-pr-" and a number behind it
-- has the name of that other service's preview for the pull request of that number.
workload_name_collision :
    (slug : Text) (n : ℤ) (pr : Option ℤ)
    → workload_name (slug ++ (codes "-pr-" ++ format_int n)) kind_production pr
      ≡ workload_name slug kind_preview (some n)
unfolding workload_name
workload_name_collision slug n none = refl
workload_name_collision slug n (some m) = refl
