-- ===== src/Tests/Services.antt =====
-- Requests through the services under internal/services, on empty caches.
use gitfusion.Prelude.{
  ◌≡◌, refl, sym, none, some, List, [], ◌∷◌, GoString, str, All, pos, arith, count, itoa, eq_str,
}
use gitfusion.GoError.{Result, ok, ok-injective}
use gitfusion.Models.{
  GitServerSettings, ListOptions, PullRequestListOptions, Branch, Organization, Repository,
  PullRequestsResponse,
}
use gitfusion.Cache.Client.{FetchingClient}
use gitfusion.Cache.Assoc.{assoc_fetching, assoc_get, assoc_fetch}
use gitfusion.Services.Keys.{NoBar}
use gitfusion.Services.Provider.{Provider, provider_of}
use gitfusion.Services.Krci.{get_settings, IsUsable, IsUsableCache, get_settings-IsUsable}
use gitfusion.Services.Dispatch.{IsSound}
use gitfusion.Services.Branches
use gitfusion.Services.Organizations
use gitfusion.Services.PullRequests
use gitfusion.Services.Repositories
use gitfusion.Tests.Data.{
  cluster, gl_settings, settings_cache, fresh, no_filter, first_page, no_pull_requests,
}

-- Each provider answers with the repository's name.
abbrev branches_of :
    Provider → GoString → GoString → GitServerSettings → ListOptions → Result (List Branch)
branches_of p owner repo settings opts = ok (record { name = repo } ∷ [])

abbrev IsNamed : Branches.BranchRequest → List Branch → Type 0
IsNamed r v = v ≡ record { name = r.repo } ∷ []

branches_of-IsNamed :
    (p : Provider) (owner repo : GoString) (settings : GitServerSettings) (opts : ListOptions)
    (v : List Branch)
    → branches_of p owner repo settings opts ≡ ok v
    → v ≡ record { name = repo } ∷ []
branches_of-IsNamed p owner repo settings opts v e = sym (ok-injective e)

usable_fresh : IsUsableCache cluster settings_cache []
unfolding assoc_get
usable_fresh = record { entry = λ r v p e. absurd (ground arith) }

pub fresh-IsSound :
    {V Req : Type 0} (key : Req → GoString) (IsPlain : Req → Type 0) (Answers : Req → V → Type 0)
    (separates : (r q : Req) → IsPlain r → key r ≡ key q → r ≡ q)
    → IsSound cluster settings_cache (assoc_fetching V) key IsPlain Answers separates fresh
unfolding assoc_get
fresh-IsSound key IsPlain Answers separates = record {
  settings = usable_fresh;
  cache = record { entry = λ r v p e. absurd (ground arith) };
}

abbrev branches_cache : FetchingClient (List Branch)
branches_cache = assoc_fetching (List Branch)

abbrev branch_answer : List Branch
branch_answer = record { name = str "app" } ∷ []

abbrev branch_request : Branches.BranchRequest
branch_request = record { git_server = str "gl"; owner = str "me"; repo = str "app"; name = [] }

branch_request-plain : All NoBar (Branches.branch_fields branch_request)
unfolding count
branch_request-plain = (refl, (refl, (refl, (refl, tt))))

list_branches_run :
    (Branches.list_branches branches_of cluster settings_cache branches_cache
      (str "gl")
      (str "me")
      (str "app")
      no_filter
      fresh).0
    ≡ ok branch_answer
unfolding Branches.list_branches assoc_fetch assoc_get get_settings provider_of eq_str
list_branches_run = refl

-- Repositories, named as the owner.
abbrev repository : GoString → Repository
repository name = record {
  default_branch = none;
  description = none;
  id = str "1";
  name = name;
  owner = none;
  url = none;
  visibility = none;
}

abbrev repositories_of :
    Provider → GoString → GitServerSettings → ListOptions → Result (List Repository)
repositories_of p owner settings opts = ok (repository owner ∷ [])

abbrev one_repository_of : Provider → GoString → GoString → GitServerSettings → Result Repository
one_repository_of p owner repo settings = ok (repository repo)

abbrev IsOwned : Repositories.RepositoriesRequest → List Repository → Type 0
IsOwned r v = v ≡ repository r.owner ∷ []

repositories_of-IsOwned :
    (p : Provider) (owner : GoString) (settings : GitServerSettings) (opts : ListOptions)
    (v : List Repository)
    → repositories_of p owner settings opts ≡ ok v
    → v ≡ repository owner ∷ []
repositories_of-IsOwned p owner settings opts v e = sym (ok-injective e)

abbrev repositories_cache : FetchingClient (List Repository)
repositories_cache = assoc_fetching (List Repository)

abbrev repositories_request : Repositories.RepositoriesRequest
repositories_request = record { git_server = str "gl"; owner = str "me"; name = [] }

repositories_request-plain : All NoBar (Repositories.repository_fields repositories_request)
unfolding count
repositories_request-plain = (refl, (refl, (refl, tt)))

list_repositories_run :
    (Repositories.list_repositories one_repository_of repositories_of cluster settings_cache
      repositories_cache
      (str "gl")
      (str "me")
      no_filter
      fresh).0
    ≡ ok (repository (str "me") ∷ [])
unfolding Repositories.list_repositories assoc_fetch assoc_get get_settings provider_of eq_str
list_repositories_run = refl

-- Pull requests: an empty page, numbered as asked.
abbrev pull_requests_of :
    Provider
    → GoString
    → GoString
    → GitServerSettings
    → PullRequestListOptions
    → Result PullRequestsResponse
pull_requests_of p owner repo settings opts = ok (record {
  items = [];
  pagination = record { page = some opts.page; per_page = some opts.per_page; total = pos 0 };
})

abbrev IsNumbered : PullRequests.PullRequestsRequest → PullRequestsResponse → Type 0
IsNumbered r v = v ≡ record {
  items = [];
  pagination = record { page = some r.page; per_page = some r.per_page; total = pos 0 };
}

pull_requests_of-IsNumbered :
    (p : Provider) (owner repo : GoString) (settings : GitServerSettings)
    (opts : PullRequestListOptions) (v : PullRequestsResponse)
    → pull_requests_of p owner repo settings opts ≡ ok v
    → v ≡ record {
      items = [];
      pagination = record { page = some opts.page; per_page = some opts.per_page; total = pos 0 };
    }
pull_requests_of-IsNumbered p owner repo settings opts v e = sym (ok-injective e)

abbrev pull_requests_cache : FetchingClient PullRequestsResponse
pull_requests_cache = assoc_fetching PullRequestsResponse

abbrev pull_requests_request : PullRequests.PullRequestsRequest
pull_requests_request = record {
  git_server = str "gl";
  owner = str "me";
  repo = str "app";
  state = str "open";
  page = pos 1;
  per_page = pos 20;
}

pull_requests_request-plain : All NoBar (PullRequests.pull_request_fields pull_requests_request)
unfolding count itoa
pull_requests_request-plain = (refl, (refl, (refl, (refl, (refl, (refl, tt))))))

list_pull_requests_run :
    (PullRequests.list_pull_requests pull_requests_of cluster settings_cache pull_requests_cache
      (str "gl")
      (str "me")
      (str "app")
      first_page
      fresh).0
    ≡ ok no_pull_requests
unfolding PullRequests.list_pull_requests assoc_fetch assoc_get get_settings provider_of eq_str
list_pull_requests_run = refl

-- Organizations: one, named as the server.
abbrev organization : GoString → Organization
organization name = record { avatar_url = none; id = str "1"; name = name }

abbrev organizations_of : Provider → GitServerSettings → Result (List Organization)
organizations_of p settings = ok (organization settings.git_server_name ∷ [])

abbrev IsOfServer : GoString → List Organization → Type 0
IsOfServer server v = v ≡ organization server ∷ []

organizations_of-IsOfServer :
    (p : Provider) (settings : GitServerSettings) (v : List Organization)
    → organizations_of p settings ≡ ok v
    → IsOfServer settings.git_server_name v
organizations_of-IsOfServer p settings v e = sym (ok-injective e)

abbrev organizations_cache : FetchingClient (List Organization)
organizations_cache = assoc_fetching (List Organization)

list_organizations_run :
    (Organizations.list_organizations organizations_of cluster settings_cache organizations_cache
      (str "gl")
      fresh).0
    ≡ ok (organization (str "gl") ∷ [])
unfolding Organizations.list_organizations assoc_fetch assoc_get get_settings provider_of eq_str
list_organizations_run = refl

no_organizations-IsTrueCache :
    Organizations.IsTrueCache organizations_of cluster settings_cache organizations_cache IsOfServer
      organizations_of-IsOfServer []
unfolding assoc_get
no_organizations-IsTrueCache = record { entry = λ r v p e. absurd (ground arith) }

warm_up-IsTrueCache_example :
    Organizations.IsTrueCache organizations_of cluster settings_cache organizations_cache IsOfServer
      organizations_of-IsOfServer
      (Organizations.warm_up organizations_of cluster settings_cache organizations_cache [])
warm_up-IsTrueCache_example =
    Organizations.warm_up-IsTrueCache organizations_of cluster settings_cache organizations_cache
      IsOfServer organizations_of-IsOfServer [] no_organizations-IsTrueCache

get_settings_run : (get_settings cluster settings_cache (str "gl") []).0 ≡ ok gl_settings
unfolding get_settings assoc_fetch assoc_get
get_settings_run = refl

get_settings-IsUsable_example : IsUsable cluster settings_cache (str "gl") gl_settings
get_settings-IsUsable_example =
    get_settings-IsUsable cluster settings_cache (str "gl") [] gl_settings usable_fresh
      get_settings_run
