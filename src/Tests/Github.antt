-- ===== src/Tests/Github.antt =====
-- The calls of GitHub at a concrete input.
use uran_api.Prelude.{
  ◌≡◌, refl, zero, suc, Text, false, Option, some, [], ◌∷◌, ◌==◌, text_eq, if◌then◌else◌, arith,
  text_beq,
}
use uran_api.Exec.{ok}
use uran_api.Go.Decimal.{format_nat}
use uran_api.Go.Http.{Response}
use uran_api.Go.Json.{
  Json, text, boolean, arr, obj, nil, elem, end, member, value_of, text_field, bool_field,
}
use uran_api.Go.Text.{codes}
use uran_api.Git.Oauth.{
  Repo, list_repos, repos_page, repos_path, gh_get, read_repos, read_repo, read_each,
}
use uran_api.Git.Oauth.Pages.{Paged, list_repos-take}

abbrev web : Repo
web = record {
  full_name = codes "a/web";
  clone_url = codes "https://git/web";
  default_branch = codes "main";
  private = false;
}

abbrev web_json : Json
web_json = obj (
    member "full_name" (text (codes "a/web")) (
      member "clone_url" (text (codes "https://git/web"))
        (member "default_branch" (text (codes "main")) (member "private" (boolean false) end))))

abbrev page : Json → Option Response
page j = some (record { status = 200; raw = []; json = some j })

abbrev github : Text → Text → Option Response
github token path = if path == repos_path 1 then page (arr (elem web_json nil)) else page (arr nil)

github-Paged : Paged github (codes "t") (web ∷ [])
unfolding repos_page gh_get read_repos read_repo read_each format_nat text_beq value_of text_field
    bool_field
github-Paged zero h = refl
github-Paged (suc zero) h = refl
github-Paged (suc (suc zero)) h = refl
github-Paged (suc (suc (suc n))) h = absurd (omega (arith, h))

list_repos-take_example : list_repos github (codes "t") ≡ ok (web ∷ [])
list_repos-take_example = list_repos-take github (codes "t") (web ∷ []) github-Paged
