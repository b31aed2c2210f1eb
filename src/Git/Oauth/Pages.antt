-- ===== src/Git/Oauth/Pages.antt =====
-- internal/git/oauth.go: the pages of an account's repositories.
use uran_api.Prelude.{
  ◌≡◌, ◌<◌, ◌≤◌, ◌+◌, ◌*◌, sym, ap, ◌∙◌, ℕ, zero, suc, Text, Option, List, [], ◌++◌, take, drop,
  length, ltb, ltb→lt, Bool-cases, inl, inr, drop-add, take-add, take-short, arith,
}
use mathlib.Core.List.{append_assoc, append-nil}
use uran_api.Exec.{ok}
use uran_api.Go.Http.{Response}
use uran_api.Git.Oauth.{Repo, repos_page, pages_from, list_repos}

module _ (get : Text → Text → Option Response) (token : Text) (all : List Repo) where
  -- GitHub answers with the repositories of an account in pages of 100, in one order; of the first
  -- three pages.
  abbrev pub Paged : Type 0
  Paged = (n : ℕ) → n < 3 → repos_page get token (suc n) ≡ ok (take 100 (drop (100 * n) all))

  abbrev rest_of : ℕ → List Repo
  rest_of n = drop (100 * n) all

  rest_of-suc : (n : ℕ) → rest_of (suc n) ≡ drop 100 (rest_of n)
  rest_of-suc n = ap (λ k. drop k all) (next n) ∙ drop-add (100 * n) 100 all
    where
      next : (n : ℕ) → 100 * suc n ≡ 100 * n + 100
      next n = omega arith

  pages-all :
      Paged
      → (left n : ℕ) (out : List Repo) → left + n ≤ 3
      → pages_from get token left (suc n) out ≡ ok (out ++ take (100 * left) (rest_of n))
  unfolding pages_from
  pages-all paged zero n out h = ap ok (sym (append-nil out))
  pages-all paged (suc left) n out h =
      rw (paged n (omega (arith, h))) (elim (Bool-cases (ltb (length (take 100 (rest_of n))) 100)) [
        | inl short ↦ rw short (
            ap (λ xs. ok (out ++ xs))
              (sym (
                ap (λ k. take k (rest_of n)) (more left)
                ∙ take-short 100 (100 * left) (rest_of n) (ltb→lt _ 100 short))))
        | inr full ↦ rw full (
            pages-all paged left (suc n) (out ++ take 100 (rest_of n)) (omega (arith, h))
            ∙ ap ok (
                append_assoc out (take 100 (rest_of n)) (take (100 * left) (rest_of (suc n)))
                ∙ ap (λ xs. out ++ xs)
                    (ap (λ ys. take 100 (rest_of n) ++ take (100 * left) ys) (rest_of-suc n)
                      ∙ sym (
                          ap (λ k. take k (rest_of n)) (more left)
                          ∙ take-add 100 (100 * left) (rest_of n)))))
      ])
    where
      more : (left : ℕ) → 100 * suc left ≡ 100 + 100 * left
      more left = omega arith

  -- The picker of repositories shows the first 300 of the account, in GitHub's order, and all of
  -- them where there are no more, if GitHub pages them by 100.
  pub list_repos-take : Paged → list_repos get token ≡ ok (take 300 all)
  unfolding list_repos
  list_repos-take paged = pages-all paged 3 0 [] (omega arith)
