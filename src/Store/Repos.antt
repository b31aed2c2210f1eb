-- ===== src/Store/Repos.antt =====
-- ServicesByRepo and ServicesByRepoURL of internal/store/deploys.go. `fold` is the lower() of the
-- database. The order of the rows is not specified.
use uran_api.Prelude.{ℕ, Text, Bool, ◌&&◌, ◌||◌, List, reverse, ◌==◌, nat_eq, text_eq, select}
use uran_api.Exec.{ok}
use uran_api.Go.Unicode.{drop_while}
use uran_api.Store.{Query, query}
use uran_api.Store.Models.{Service}

abbrev pub in_git : ℕ → Bool
in_git c = c == b'.' || (c == b'g' || (c == b'i' || c == b't'))

-- `trim(trailing '.git' from …)`: characters of that set go, whatever their order.
unfoldable pub trim_trailing : Text → Text
trim_trailing s = reverse (drop_while in_git (reverse s))

module _ (fold : Text → Text) where
  unfoldable pub same_repo : Text → Text → Bool
  unfolding trim_trailing
  same_repo a b = fold (trim_trailing a) == fold (trim_trailing b)

  unfoldable pub services_by_repo : Text → Text → Query (List Service)
  unfolding same_repo
  services_by_repo url branch = query λ db.
      ok (select (λ (s : Service). s.branch == branch && same_repo s.repo_url url) db.services)

  unfoldable pub services_by_repo_url : Text → Query (List Service)
  unfolding same_repo
  services_by_repo_url url =
      query λ db. ok (select (λ (s : Service). same_repo s.repo_url url) db.services)
