-- ===== src/Tests/Providers.antt =====
-- Runs of the providers' functions under internal/services/github and internal/services/gitlab.
use mathlib.Core.List.{Perm}
use gitfusion.Prelude.{
  ℕ, ◌≡◌, refl, false, Option, none, some, List, [], ◌∷◌, ◌++◌, map, take, length, ltb, GoString,
  str, ℤ, pos, ◌==◌, nat_eq, int_eq, eq_str, count, arith, if◌then◌else◌,
}
use gitfusion.GoError.{GoError, Result, ok, err}
use gitfusion.Common.{split_project, split_project-join}
use gitfusion.Scan.{scan_github, collect_from_scan}
use gitfusion.Scan.Laws.{events, until_error, collect_from_scan-scan_github}
use gitfusion.GitHub.Types.{GithubPullRequest, GithubRepository}
use gitfusion.GitHub.Convert.{matches_state_filter, convert_pull_request}
use gitfusion.GitHub.PullRequests.{ListCall, Context, max_pages, respond, list_with_post_filter}
use gitfusion.GitHub.PullRequests.Laws.{all_prs}
use gitfusion.GitHub.PullRequests.Page.{options, page_items, page_total, list_with_post_filter_lem}
use gitfusion.GitLab.Convert.{map_jobs_error}
use gitfusion.GitLab.Jobs.{GitlabJob, max_jobs_total, map_job, list_pipeline_jobs}
use gitfusion.GitLab.Jobs.Laws.{IsSorted, list_pipeline_jobs_lem, list_pipeline_jobs_error}
use gitfusion.GitLab.Trace.{HttpResponse, max_trace_bytes, get_job_trace, get_job_trace_lem}

abbrev pull_request : ℕ → Option ℤ → GithubPullRequest
pull_request n merged_at = record {
  id = some (pos n);
  number = some (pos n);
  title = none;
  state = some (str "closed");
  body = none;
  html_url = none;
  head = none;
  base = none;
  merged_at = merged_at;
  created_at = none;
  updated_at = none;
  draft = none;
  user = none;
}

abbrev both : List GithubPullRequest
both = pull_request 1 (some (pos 5)) ∷ pull_request 2 none ∷ []

abbrev last_one : List GithubPullRequest
last_one = pull_request 3 (some (pos 6)) ∷ []

-- Two pages of closed pull requests; 1 and 3 are merged.
abbrev two_pages : ListCall
two_pages state page per_page =
    if page == pos 1
    then ok (both, record { next_page = pos 2; last_page = pos 2 })
    else ok (last_one, record { next_page = pos 0; last_page = pos 0 })

abbrev alive : Context
alive n = none

two_pages-all : all_prs two_pages (str "closed") max_pages (pos 1) ≡ ok (both ++ last_one)
unfolding all_prs
two_pages-all = refl

list_with_post_filter_lem_example :
    list_with_post_filter two_pages alive
      (str "me")
      (str "app")
      (options (str "merged") 1 1)
      (str "closed")
    ≡ ok (
        respond
          (options (str "merged") 1 1)
          (map convert_pull_request (page_items (str "merged") 1 1 (both ++ last_one)))
          (pos (page_total (str "merged") 1 1 (both ++ last_one))))
list_with_post_filter_lem_example =
    list_with_post_filter_lem two_pages alive (str "me") (str "app") (str "merged") (str "closed") 1
      0 (both ++ last_one) (λ n. refl) two_pages-all (omega arith)

-- The page is pull request 3, and it is full.
page_run :
    (page_items (str "merged") 1 1 (both ++ last_one) ≡ last_one)
    × (page_total (str "merged") 1 1 (both ++ last_one) ≡ 3)
unfolding matches_state_filter eq_str
page_run = (refl, refl)

-- Repositories in two pages; the second is the last.
abbrev repository : GoString → Option GithubRepository
repository name = some (record {
  id = none;
  name = some name;
  owner = none;
  html_url = none;
  default_branch = none;
  description = none;
  is_private = none;
})

abbrev repository_pages : ℤ → ℤ → Result (List (Option GithubRepository) × ℤ)
repository_pages page per_page =
    if page == pos 0
    then ok (repository (str "app") ∷ none ∷ [], pos 2)
    else ok (repository (str "web-app") ∷ [], pos 0)

abbrev repository_events : List (Result (Option GithubRepository))
repository_events = ok (repository (str "app")) ∷ ok none ∷ ok (repository (str "web-app")) ∷ []

repository_pages-events :
    events 2 (λ page. repository_pages page (pos 100)) (pos 0) ≡ some repository_events
unfolding events
repository_pages-events = refl

collect_from_scan-scan_github_example :
    collect_from_scan (scan_github 2 repository_pages (pos 100))
    ≡ some (until_error repository_events)
collect_from_scan-scan_github_example =
    collect_from_scan-scan_github 2 repository_pages (pos 100) repository_events
      repository_pages-events

-- GitLab jobs: floating-point numbers are of no matter here.
abbrev gitlab_job : ℕ → GitlabJob Unit
gitlab_job n = record {
  id = pos n;
  name = str "build";
  stage = str "build";
  status = str "success";
  ref = [];
  web_url = [];
  allow_failure = false;
  duration = tt;
  created_at = none;
  started_at = none;
  finished_at = none;
  failure_reason = [];
}

abbrev two_jobs : List (GitlabJob Unit)
two_jobs = gitlab_job 9 ∷ gitlab_job 4 ∷ []

list_pipeline_jobs_lem_example :
    (sorted : List (GitlabJob Unit)) × (list_pipeline_jobs
        (λ u. false)
        (λ u. u)
        (str "me/app")
        (pos 3)
        (ok (map ok two_jobs))
      ≡ ok (map (map_job (λ u. false) (λ u. u)) sorted))
    × IsSorted sorted
    × Perm sorted (take max_jobs_total two_jobs)
list_pipeline_jobs_lem_example =
    list_pipeline_jobs_lem (λ u. false) (λ (u : Unit). u) (str "me/app") (pos 3) two_jobs

list_pipeline_jobs_error_example :
    list_pipeline_jobs
      (λ u. false)
      (λ (u : Unit). u)
      (str "me/app")
      (pos 3)
      (ok (map ok two_jobs ++ err GoError.gitlab_not_found ∷ []))
    ≡ err (map_jobs_error GoError.gitlab_not_found (str "me/app") (pos 3))
list_pipeline_jobs_error_example =
    list_pipeline_jobs_error (λ u. false) (λ (u : Unit). u) (str "me/app") (pos 3) two_jobs
      GoError.gitlab_not_found [] (omega arith)

abbrev log_response : HttpResponse
log_response = record { status_code = 200; body = str "log"; read_error = none }

get_job_trace_lem_example :
    get_job_trace
      (λ s. s)
      (λ url. none)
      (λ url token. ok log_response)
      (str "https://gitlab.com/")
      (str "token")
      (str "me/app")
      (pos 7)
    ≡ ok (take max_trace_bytes (str "log"), ltb max_trace_bytes (length (str "log")))
get_job_trace_lem_example =
    get_job_trace_lem (λ s. s) (λ url. none) (λ url token. ok log_response)
      (str "https://gitlab.com/") (str "token") (str "me/app") (pos 7) (str "log") refl refl

me-no_slash : count b'/' (str "me") ≡ 0
unfolding count
me-no_slash = refl

split_project-join_example : split_project (λ s. s) (str "me/app") ≡ ok (str "me", str "app")
split_project-join_example =
    split_project-join (λ s. s) (str "me") (str "app") me-no_slash refl refl

split_project_run : split_project (λ s. s) (str "group/sub/app") ≡ ok (str "group", str "sub/app")
unfolding split_project
split_project_run = refl
