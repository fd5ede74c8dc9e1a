-- ===== src/Tests/Repositories.antt =====
-- A run of the list of repositories of internal/services/github/github.go.
use gitfusion.Prelude.{
  ◌≡◌, refl, true, none, some, [], ◌∷◌, GoString, str, pos, ◌==◌, int_eq, eq_str, if◌then◌else◌,
}
use gitfusion.GoError.{ok}
use gitfusion.Scan.Laws.{events}
use gitfusion.GitHub.Types.{GithubRepository}
use gitfusion.GitHub.Convert.{convert_repository}
use gitfusion.GitHub.Lists.{scan_page_size}
use gitfusion.GitHub.Repositories.{name_matches}
use gitfusion.GitHub.Catalog.{
  RepositoryCalls, pages_of, returned, list_repositories, list_repositories_lem,
}

-- An organization with two repositories, one on each of two pages.
abbrev named_repository : GoString → GithubRepository
named_repository name = record {
  id = none;
  name = some name;
  owner = none;
  html_url = none;
  default_branch = none;
  description = none;
  is_private = none;
}

abbrev organization_calls : RepositoryCalls
organization_calls = record {
  is_organization = λ owner. true;
  by_org = λ owner page per_page.
      if page == pos 0
      then ok (some (named_repository (str "app")) ∷ [], pos 2)
      else ok (some (named_repository (str "web-app")) ∷ [], pos 0);
  by_user = λ owner page per_page. ok ([], pos 0);
}

organization_events :
    events 2 (λ page. pages_of organization_calls (str "me") page scan_page_size) (pos 0)
    ≡ some (
        ok (some (named_repository (str "app")))
        ∷ ok (some (named_repository (str "web-app")))
        ∷ [])
unfolding events
organization_events = refl

list_repositories_lem_example :
    list_repositories (λ s. s) 2 organization_calls (str "me") (record { name = some (str "web") })
    ≡ some (returned (ok (convert_repository (named_repository (str "web-app")) ∷ [])))
unfolding name_matches eq_str
list_repositories_lem_example =
    list_repositories_lem (λ s. s) 2 organization_calls (str "me")
      (record { name = some (str "web") })
      (named_repository (str "app") ∷ named_repository (str "web-app") ∷ []) organization_events
