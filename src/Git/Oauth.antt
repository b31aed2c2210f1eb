-- ===== src/Git/Oauth.antt =====
-- internal/git/oauth.go: the calls of GitHub. `post` is its answer to the form with an App's
-- credentials and a code, and `get` to a path with a token; `none` is a call that fails.
pub mod Pages
use uran_api.Prelude.{
  ℕ, zero, suc, ◌/◌, Text, Bool, not, Option, none, some, List, [], ◌∷◌, ◌++◌, ◌==◌, nat_eq,
  text_eq, if◌then◌else◌, ltb, length,
}
use uran_api.Exec.{Result, ok, err}
use uran_api.Go.Text.{codes}
use uran_api.Go.Decimal.{format_nat}
use uran_api.Go.Http.{Response}
use uran_api.Go.Json.{
  Json, null, obj, arr, Elems, nil, elem, Members, end, value_of, text_field, bool_field,
}

pub data OauthError : Type 0 where
  -- The transport failed, or the answer does not decode.
  broken : OauthError
  unexpected_status : ℕ → OauthError
  -- With GitHub's description, which is empty where it sent neither that nor a token.
  denied : Text → OauthError

pub record Repo : Type 0 where
  pub full_name : Text
  pub clone_url : Text
  pub default_branch : Text
  pub private : Bool

infixl 5 ◌>>=◌
abbrev ◌>>=◌ :
    {A B : Type 0} → Result OauthError A → (A → Result OauthError B) → Result OauthError B
err e >>= k = err e
ok a >>= k = k a

abbrev or_broken : {A : Type 0} → Option A → Result OauthError A
or_broken none = err broken
or_broken (some a) = ok a

-- The members of a struct, of which unknown ones are skipped.
abbrev members_of : Json → Result OauthError Members
members_of null = ok end
members_of (obj ms) = ok ms
members_of _ = err broken

abbrev token_of : Text → Text → Result OauthError Text
token_of token error = if not (token == []) then ok token else err (denied error)

unfoldable pub exchange_code :
    (Text → Text → Text → Option Response) → Text → Text → Text → Result OauthError Text
unfolding value_of text_field
exchange_code post client_id client_secret code = do
  r ← or_broken (post client_id client_secret code)
  j ← or_broken r.json
  ms ← members_of j
  token ← or_broken (text_field (value_of "access_token" ms))
  error ← or_broken (text_field (value_of "error_description" ms))
  token_of token error

unfoldable pub read_repo : Json → Result OauthError Repo
unfolding value_of text_field bool_field
read_repo j = do
  ms ← members_of j
  full_name ← or_broken (text_field (value_of "full_name" ms))
  clone_url ← or_broken (text_field (value_of "clone_url" ms))
  default_branch ← or_broken (text_field (value_of "default_branch" ms))
  private ← or_broken (bool_field (value_of "private" ms))
  ok (record {
    full_name = full_name;
    clone_url = clone_url;
    default_branch = default_branch;
    private = private;
  })

unfoldable pub read_each : Elems → Result OauthError (List Repo)
unfolding read_repo
read_each nil = ok []
read_each (elem j js) = do r ← read_repo j; rs ← read_each js; ok (r ∷ rs)

unfoldable pub read_repos : Json → Result OauthError (List Repo)
unfolding read_each
read_repos null = ok []
read_repos (arr js) = read_each js
read_repos _ = err broken

abbrev pub repos_path : ℕ → Text
repos_path page =
    codes "/user/repos?per_page=100&sort=pushed"
    ++ (codes "&affiliation=owner,collaborator,organization_member&page=" ++ format_nat page)

module _ (get : Text → Text → Option Response) (token : Text) where
  unfoldable pub gh_get : Text → Result OauthError Json
  gh_get path = do
    r ← or_broken (get token path)
    if not (r.status / 100 == 2) then err (unexpected_status r.status) else or_broken r.json

  unfoldable pub account_login : Result OauthError Text
  unfolding gh_get value_of text_field
  account_login = do
    j ← gh_get (codes "/user")
    ms ← members_of j
    or_broken (text_field (value_of "login" ms))

  unfoldable pub repos_page : ℕ → Result OauthError (List Repo)
  unfolding gh_get read_repos
  repos_page page = do j ← gh_get (repos_path page); read_repos j

  -- The loop, with so many rounds left.
  unfoldable pub pages_from : ℕ → ℕ → List Repo → Result OauthError (List Repo)
  unfolding repos_page
  pages_from zero page out = ok out
  pages_from (suc left) page out = do
    batch ← repos_page page
    let rest = pages_from left (suc page) (out ++ batch)
    if ltb (length batch) 100 then ok (out ++ batch) else rest

  unfoldable pub list_repos : Result OauthError (List Repo)
  unfolding pages_from
  list_repos = pages_from 3 1 []
