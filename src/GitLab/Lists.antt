-- ===== src/GitLab/Lists.antt =====
-- `GetRepository`, `ListUserOrganizations` and `ListBranches` of internal/services/gitlab/gitlab.go.
use gitfusion.Prelude.{
  ◌≡◌, Bool, Option, none, some, List, [], ◌++◌, GoString, str, nonempty, ℤ, itoa, ◌==◌, string_eq,
  if◌then◌else◌,
}
use gitfusion.GoError.{GoError, Result, ok, err, wrapped, sentinel, not_found, is_gitlab_not_found}
use gitfusion.Models.{
  Repository, RepositoryVisibility, private_repo, public_repo, Branch, Organization,
}
use gitfusion.Scan.Laws.{until_error}
use gitfusion.Scan.Range.{range_events, reply, range_events-reply}
use gitfusion.GitLab.Calls.{with_client}

pub record GitlabProject : Type 0 where
  pub id : ℤ
  pub path : GoString
  pub namespace : GoString
  pub description : GoString
  pub default_branch : GoString
  pub web_url : GoString
  pub visibility : GoString

unfoldable pub convert_visibility : Bool → Option RepositoryVisibility
convert_visibility is_private = if is_private then some private_repo else some public_repo

-- `convertGitlabRepoToRepository` at a project that is not nil; `namespace` is its full path.
unfoldable pub convert_repository : GitlabProject → Repository
unfolding itoa convert_visibility
convert_repository repo = record {
  default_branch = some repo.default_branch;
  description = some repo.description;
  id = itoa repo.id;
  name = repo.path;
  owner = some repo.namespace;
  url = some repo.web_url;
  visibility = convert_visibility (repo.visibility == str "private");
}

missing_or : GoString → GoError → GoError → GoError
missing_or missing other e =
    if is_gitlab_not_found e then wrapped missing (sentinel not_found) else other

get_answer : GoString → GoString → Result GitlabProject → Result Repository
unfolding missing_or convert_repository
get_answer owner repo (ok project) = ok (convert_repository project)
get_answer owner repo (err e) =
    err (missing_or (str "repository " ++ owner ++ str "/" ++ repo ++ str " ") e e)

-- The client is its call `Projects.GetProject`.
unfoldable pub get_repository :
    Result (GoString → Result GitlabProject) → GoString → GoString → Result Repository
unfolding get_answer
get_repository (err e) owner repo = err e
get_repository (ok get) owner repo = get_answer owner repo (get (owner ++ str "/" ++ repo))

pub record GitlabGroup : Type 0 where
  pub id : ℤ
  pub full_path : GoString
  pub avatar_url : GoString

group_organization : GitlabGroup → Option Organization
unfolding itoa
group_organization g = some (record {
  avatar_url = if nonempty g.avatar_url then some g.avatar_url else none;
  id = itoa g.id;
  name = g.full_path;
})

-- The client is what its iterator over the groups yields.
unfoldable pub list_user_organizations :
    Result (List (Result GitlabGroup)) → Result (List Organization)
unfolding range_events group_organization
list_user_organizations (err e) = err e
list_user_organizations (ok events) =
    range_events (wrapped (str "failed to list groups: ")) group_organization events []

pub branch_error : GoString → GoString → GoError → GoError
unfolding missing_or
branch_error owner repo e =
    missing_or (str "project " ++ owner ++ str "/" ++ repo ++ str ": ")
      (wrapped (str "failed to list branches for " ++ owner ++ str "/" ++ repo ++ str ": ") e) e

abbrev pub branch_of : GoString → Option Branch
branch_of name = some (record { name = name })

-- The client is what its iterator over the branches' names yields.
unfoldable pub list_branches :
    Result (List (Result GoString)) → GoString → GoString → Result (List Branch)
unfolding range_events branch_error
list_branches client owner repo =
    with_client (str "failed to create gitlab client: ")
      (λ events. range_events (branch_error owner repo) branch_of events []) client

-- The branches that the client yields are returned in order, unless it yields an error: then the
-- first one is returned, mapped.
pub list_branches-events :
    (events : List (Result GoString)) (owner repo : GoString)
    → list_branches (ok events) owner repo
      ≡ reply (branch_error owner repo) branch_of [] (until_error events)
unfolding list_branches
list_branches-events events owner repo =
    range_events-reply (branch_error owner repo) branch_of events []
