-- ===== src/GitHub/Catalog.antt =====
-- `GetRepository` and `ListRepositories` of internal/services/github/github.go.
use gitfusion.Prelude.{
  ℕ, ◌≡◌, refl, ap, sym, ◌∙◌, Bool, true, false, Option, none, some, List, [], ◌∷◌, ◌++◌,
  append_assoc, append-nil, map, keep, Bool-cases, inl, inr, GoString, str, pos, if◌then◌else◌,
}
use gitfusion.GoError.{GoError, Result, ok, err}
use gitfusion.Models.{Repository, ListOptions}
use gitfusion.Scan.{Yield, scan_github}
use gitfusion.Scan.Laws.{deliver, events}
use gitfusion.GitHub.Types.{GithubRepository}
use gitfusion.GitHub.Convert.{github_error, convert_repository}
use gitfusion.GitHub.Repositories.{
  name_matches, filter_repositories_by_name, matching, filter_repositories_by_name_lem,
}
use gitfusion.GitHub.Lists.{Pages, scan_page_size}

-- The client gives a repository where it gives no error.
unfoldable pub get_repository :
    (GoString → GoString → Result GithubRepository) → GoString → GoString → Result Repository
unfolding github_error convert_repository
get_repository get owner repo = elim (get owner repo) [
  | ok found ↦ ok (convert_repository found)
  | err e ↦ err (
      github_error (str "repository " ++ owner ++ str "/" ++ repo ++ str ": ")
        (str "failed to get repository " ++ owner ++ str "/" ++ repo ++ str ": ") e)
]

-- A nil repository that passes the filter is dereferenced.
pub data Outcome : Type 0 where
  returned : Result (List Repository) → Outcome
  panicked : Outcome

-- How the loop stands: it goes on, has returned an error, or has dereferenced nil.
pub data Standing : Type 0 where
  going failing_nil : Standing
  failing : GoError → Standing

abbrev pub list_error : GoString → GoError → GoError
unfolding github_error
list_error owner e =
    github_error (str "organization or user " ++ owner ++ str ": ")
      (str "failed to list repositories for org " ++ owner ++ str ": ") e

unfoldable pub list_yield : GoString → Yield (Option GithubRepository) (List Repository × Standing)
unfolding convert_repository
list_yield owner (err e) (items, standing) = ((items, failing (list_error owner e)), false)
list_yield owner (ok none) (items, standing) = ((items, failing_nil), false)
list_yield owner (ok (some repo)) (items, standing) =
    ((items ++ convert_repository repo ∷ [], standing), true)

abbrev pub outcome_of : List Repository × Standing → Outcome
outcome_of (items, going) = returned (ok items)
outcome_of (items, failing_nil) = panicked
outcome_of (items, failing e) = returned (err e)

-- The calls that are made of the client: is the owner an organization, and its repositories or those of
-- a user, by pages.
pub record RepositoryCalls : Type 0 where
  pub is_organization : GoString → Bool
  pub by_org : GoString → Pages (Option GithubRepository)
  pub by_user : GoString → Pages (Option GithubRepository)

abbrev pub pages_of : RepositoryCalls → GoString → Pages (Option GithubRepository)
pages_of calls owner =
    if calls.is_organization owner then calls.by_org owner else calls.by_user owner

-- The parameter is `strings.ToLower`.
module _ (to_lower : GoString → GoString) where
  -- `none` means that the fuel of the iterator ran out.
  unfoldable pub list_repositories : ℕ → RepositoryCalls → GoString → ListOptions → Option Outcome
  unfolding filter_repositories_by_name scan_github list_yield
  list_repositories fuel calls owner opts =
      elim (filter_repositories_by_name to_lower
        (scan_github fuel (pages_of calls owner) scan_page_size) opts.name (list_yield owner)
        ([], going)) [ none ↦ none | some out ↦ some (outcome_of out) ]

  all_of : List GithubRepository → List (Result (Option GithubRepository))
  all_of repos = map (λ r. ok (some r)) repos

  matching-all_of :
      (name : Option GoString) (repos : List GithubRepository)
      → matching to_lower name (all_of repos)
        ≡ all_of (keep (λ r. name_matches to_lower name (some r)) repos)
  unfolding matching all_of
  matching-all_of name [] = refl
  matching-all_of name (r ∷ repos) = elim (Bool-cases (name_matches to_lower name (some r))) [
    | inl e ↦ rw (e, matching-all_of name repos) refl
    | inr e ↦ rw (e, matching-all_of name repos) refl
  ]

  deliver-list_yield :
      (owner : GoString) (repos : List GithubRepository) (items : List Repository)
      → deliver (list_yield owner) (all_of repos) (items, going)
        ≡ (items ++ map convert_repository repos, going)
  unfolding deliver list_yield all_of
  deliver-list_yield owner [] items = ap (λ l. (l, going)) (sym (append-nil items))
  deliver-list_yield owner (r ∷ repos) items =
      deliver-list_yield owner repos (items ++ convert_repository r ∷ [])
      ∙ ap (λ l. (l, going))
          (append_assoc items (convert_repository r ∷ []) (map convert_repository repos))

  -- If the pages for the owner end within the fuel, with the given repositories and no error, the answer
  -- is those of them that match the name filter, converted, in order.
  pub list_repositories_lem :
      (fuel : ℕ) (calls : RepositoryCalls) (owner : GoString) (opts : ListOptions)
      (repos : List GithubRepository)
      → events fuel (λ page. pages_of calls owner page scan_page_size) (pos 0)
        ≡ some (map (λ r. ok (some r)) repos)
      → list_repositories fuel calls owner opts
        ≡ some (
            returned (
              ok (
                map convert_repository
                  (keep (λ r. name_matches to_lower opts.name (some r)) repos))))
  unfolding list_repositories all_of
  list_repositories_lem fuel calls owner opts repos h =
      rw
        (
          filter_repositories_by_name_lem to_lower fuel (pages_of calls owner) scan_page_size
                opts.name (list_yield owner) (all_of repos) ([], going) h
              ∙ ap some (
                  ap (λ es. deliver (list_yield owner) es ([], going))
                    (matching-all_of opts.name repos)
                  ∙ deliver-list_yield owner
                      (keep (λ r. name_matches to_lower opts.name (some r)) repos) []),
          list_repositories,
        )
        refl
