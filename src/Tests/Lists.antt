-- ===== src/Tests/Lists.antt =====
-- Runs of the lists of internal/services/github/github.go and internal/services/gitlab/gitlab.go.
use mathlib.Core.Path.{subst}
use gitfusion.Prelude.{
  ◌≡◌, ◌≢◌, ◌||◌, refl, ap, sym, ◌∙◌, true, false, Option, none, some, List, [], ◌∷◌, map, itoa,
  All, GoString, str, ℤ, pos, ◌==◌, int_eq, eq_str, if◌then◌else◌,
}
use gitfusion.GoError.{
  GoError, Sentinel, Result, ok, is_error, gitlab_response, is_gitlab_not_found,
}
use gitfusion.Models.{
  status_string, state_string, PipelineStatus, PullRequestState, PipelinesResponse,
  PullRequestsResponse, PipelineListOptions, PullRequestListOptions, Organization,
}
use gitfusion.Scan.Laws.{events, until_error}
use gitfusion.Common.{value_or_empty}
use gitfusion.GitHub.Convert.{int_or_zero}
use gitfusion.GitHub.Types.{User}
use gitfusion.GitHub.Lists.{
  Pages, scan_page_size, list_user_organizations, list_user_organizations_lem,
}
use gitfusion.GitLab.Convert.{map_status_to_gitlab, map_state_to_gitlab, has_status}
use gitfusion.GitLab.Calls.{answered, answered-injective, call_error}
use gitfusion.GitLab.Pipelines.{
  GitlabPipeline, PipelinesQuery, ListPipelinesCall, pipelines_query, list_pipelines,
  list_pipelines-filtered,
}
use gitfusion.GitLab.MergeRequests.{
  MergeRequest, ListCall, list_pull_requests, list_pull_requests-filtered,
}
use gitfusion.Api.Responses.{status_code, pipeline_error, pull_request_error}
use gitfusion.Api.Laws.{gitlab_failure_status, status-call_error}

-- A GitLab with one pipeline for each status that is asked for.
abbrev pipeline : GoString → GitlabPipeline
pipeline status = record {
  id = pos 1;
  project_id = pos 2;
  status = status;
  source = str "push";
  ref = str "main";
  sha = [];
  web_url = [];
  created_at = none;
  updated_at = none;
}

abbrev pipelines_with : Option GoString → List GitlabPipeline
pipelines_with none = []
pipelines_with (some status) = pipeline status ∷ []

abbrev one_pipeline : ListPipelinesCall
one_pipeline project q = answered (pipelines_with q.status) (pos 1)

one_pipeline-honest :
    (q : PipelinesQuery) (v : GoString) (found : List GitlabPipeline) (n : ℤ)
    → q.status ≡ some v
    → one_pipeline (str "me/app") q ≡ answered found n
    → All (λ p. p.status ≡ v) found
one_pipeline-honest q v found n e f =
    subst (All (λ p. p.status ≡ v))
      (answered-injective (ap (λ s. answered (pipelines_with s) (pos 1)) (sym e) ∙ f)) (refl, tt)

abbrev cancelled_only : PipelineListOptions
cancelled_only = record {
  ref = none;
  status = some (str "cancelled");
  page = pos 1;
  per_page = pos 20;
}

cancelled_run :
    one_pipeline (str "me/app") (pipelines_query cancelled_only)
    ≡ answered (pipeline (str "canceled") ∷ []) (pos 1)
unfolding map_status_to_gitlab eq_str
cancelled_run = refl

cancelled_name : cancelled_only.status ≡ some (status_string PipelineStatus.cancelled)
unfolding status_string
cancelled_name = refl

list_pipelines-filtered_example :
    (r : PipelinesResponse) × (list_pipelines (ok one_pipeline) (str "me/app") cancelled_only
      ≡ ok r)
    × All (λ p. p.status ≡ PipelineStatus.cancelled) r.items
list_pipelines-filtered_example =
    list_pipelines-filtered one_pipeline (str "me/app") cancelled_only PipelineStatus.cancelled
      (pipeline (str "canceled") ∷ []) (pos 1) one_pipeline-honest cancelled_name cancelled_run

-- A GitLab with one merge request for each state that is asked for.
abbrev merge_request : GoString → MergeRequest
merge_request state = record {
  id = pos 1;
  iid = pos 1;
  title = [];
  state = state;
  description = [];
  source_branch = [];
  target_branch = [];
  sha = [];
  web_url = [];
  draft = false;
  author = none;
  created_at = none;
  updated_at = none;
}

abbrev one_merge_request : ListCall
one_merge_request project state page per_page = answered (merge_request state ∷ []) (pos 1)

one_merge_request-honest :
    (project state : GoString) (page per_page : ℤ) (found : List MergeRequest) (n : ℤ)
    → state ≢ str "all"
    → one_merge_request project state page per_page ≡ answered found n
    → All (λ mr. mr.state ≡ state) found
one_merge_request-honest project state page per_page found n other f =
    subst (All (λ mr. mr.state ≡ state)) (answered-injective f) (refl, tt)

abbrev open_only : PullRequestListOptions
open_only = record { state = str "open"; page = pos 1; per_page = pos 20 }

open_run :
    one_merge_request (str "me/app") (map_state_to_gitlab open_only.state) (pos 1) (pos 20)
    ≡ answered (merge_request (str "opened") ∷ []) (pos 1)
unfolding map_state_to_gitlab eq_str
open_run = refl

open_name : open_only.state ≡ state_string PullRequestState.open_state
unfolding state_string
open_name = refl

list_pull_requests-filtered_example :
    (r : PullRequestsResponse) × (list_pull_requests
        (ok one_merge_request)
        (str "me")
        (str "app")
        open_only
      ≡ ok r)
    × All (λ p. p.state ≡ PullRequestState.open_state) r.items
list_pull_requests-filtered_example =
    list_pull_requests-filtered one_merge_request (str "me") (str "app") open_only
      PullRequestState.open_state (merge_request (str "opened") ∷ []) (pos 1)
      one_merge_request-honest open_name open_run

-- Two pages of branches of GitHub.
abbrev branch_pages : Pages (Option GoString)
branch_pages page per_page =
    if page == pos 0 then ok (some (str "main") ∷ [], pos 2) else ok (some (str "dev") ∷ [], pos 0)

abbrev branch_events : List (Result (Option GoString))
branch_events = ok (some (str "main")) ∷ ok (some (str "dev")) ∷ []

branch_pages-events :
    events 2 (λ page. branch_pages page scan_page_size) (pos 0) ≡ some branch_events
unfolding events
branch_pages-events = refl

abbrev me : User
me = record { id = some (pos 7); login = some (str "me"); avatar_url = none }

abbrev acme : User
acme = record { id = some (pos 8); login = some (str "acme"); avatar_url = none }

-- One page of memberships, one of them without an organization.
abbrev membership_pages : Pages (Option User)
membership_pages page per_page = ok (some acme ∷ none ∷ [], pos 0)

membership_pages-events :
    events 1 (λ page. membership_pages page scan_page_size) (pos 0)
    ≡ some (ok (some acme) ∷ ok none ∷ [])
unfolding events
membership_pages-events = refl

memberships-all : until_error (ok (some acme) ∷ ok none ∷ []) ≡ (some acme ∷ none ∷ [], none)
unfolding until_error
memberships-all = refl

list_user_organizations_lem_example :
    (orgs : List Organization) × (list_user_organizations 1 true (ok me) membership_pages
      ≡ some (ok orgs))
    × (map (λ o. o.name) orgs ≡ map (λ x. value_or_empty x.login) (acme ∷ me ∷ []))
    × (map (λ o. o.id) orgs ≡ map (λ x. itoa (int_or_zero x.id)) (acme ∷ me ∷ []))
    × (map (λ o. o.avatar_url) orgs ≡ map (λ x. x.avatar_url) (acme ∷ me ∷ []))
list_user_organizations_lem_example =
    list_user_organizations_lem 1 true me membership_pages (ok (some acme) ∷ ok none ∷ [])
      (some acme ∷ none ∷ []) membership_pages-events memberships-all

abbrev forbidden : GoError
forbidden = gitlab_response (some 403) (str "forbidden")

forbidden-foreign : (s : Sentinel) → is_error forbidden s ≡ false
unfolding is_error
forbidden-foreign s = refl

status-call_error_example :
    (status_code
        (pipeline_error {A = Unit} (call_error (str "project") (str "failed") (some 403) forbidden))
      ≡ gitlab_failure_status
          (is_gitlab_not_found forbidden || has_status (some 403) 404)
          (has_status (some 403) 401 || has_status (some 403) 403))
    × (status_code (
          pull_request_error {A = Unit}
            (call_error (str "project") (str "failed") (some 403) forbidden))
        ≡ gitlab_failure_status
            (is_gitlab_not_found forbidden || has_status (some 403) 404)
            (has_status (some 403) 401 || has_status (some 403) 403))
status-call_error_example =
    status-call_error (str "project") (str "failed") (some 403) forbidden forbidden-foreign
