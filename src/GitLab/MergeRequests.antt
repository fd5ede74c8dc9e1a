-- ===== src/GitLab/MergeRequests.antt =====
-- `ListPullRequests` of internal/services/gitlab/gitlab.go.
use gitfusion.Prelude.{
  ◌≡◌, ◌≢◌, arith, eq_str, ap, ◌∙◌, Bool, Option, none, some, List, ◌++◌, All, All-map, map,
  GoString, str, nonempty, ℤ, itoa, if◌then◌else◌,
}
use gitfusion.GoError.{Result, ok, err}
use gitfusion.Models.{
  Time, Owner, PullRequest, PullRequestState, PullRequestsResponse, PullRequestListOptions,
  state_string,
}
use gitfusion.GitLab.Convert.{
  map_state_to_gitlab, normalize_merge_request_state, map_state-normalize_merge_request_state,
}
use gitfusion.GitLab.Calls.{Answer, answered, call_error, value_of}
use gitfusion.GitLab.Pipelines.{created_or_zero}

pub record GitlabUser : Type 0 where
  pub id : ℤ
  pub username : GoString
  pub avatar_url : GoString

pub record MergeRequest : Type 0 where
  pub id : ℤ
  pub iid : ℤ
  pub title : GoString
  pub state : GoString
  pub description : GoString
  pub source_branch : GoString
  pub target_branch : GoString
  pub sha : GoString
  pub web_url : GoString
  pub draft : Bool
  pub author : Option GitlabUser
  pub created_at : Option Time
  pub updated_at : Option Time

abbrev unless_empty : GoString → Option GoString
unless_empty s = if nonempty s then some s else none

author_of : Option GitlabUser → Option Owner
unfolding itoa
author_of none = none
author_of (some u) =
    some (record { avatar_url = unless_empty u.avatar_url; id = itoa u.id; name = u.username })

unfoldable pub convert_merge_request : MergeRequest → PullRequest
unfolding itoa normalize_merge_request_state author_of
convert_merge_request mr = record {
  author = author_of mr.author;
  commit_sha = unless_empty mr.sha;
  created_at = created_or_zero mr.created_at;
  description = unless_empty mr.description;
  draft = some mr.draft;
  id = itoa mr.id;
  number = mr.iid;
  source_branch = mr.source_branch;
  state = normalize_merge_request_state mr.state;
  target_branch = mr.target_branch;
  title = mr.title;
  updated_at = created_or_zero mr.updated_at;
  url = mr.web_url;
}

-- `client.MergeRequests.ListProjectMergeRequests`, by project, state, page and page size.
abbrev pub ListCall : Type 0
ListCall = GoString → GoString → ℤ → ℤ → Answer (List MergeRequest)

abbrev pub merge_requests_page :
    PullRequestListOptions → List MergeRequest → ℤ → PullRequestsResponse
merge_requests_page opts mrs total = record {
  items = map convert_merge_request mrs;
  pagination = record { page = some opts.page; per_page = some opts.per_page; total = total };
}

-- An error of the client's construction is returned as it is.
unfoldable pub list_pull_requests :
    Result ListCall → GoString → GoString → PullRequestListOptions → Result PullRequestsResponse
unfolding convert_merge_request map_state_to_gitlab call_error
list_pull_requests (err e) owner repo opts = err e
list_pull_requests (ok list) owner repo opts =
    value_of (str "project " ++ owner ++ str "/" ++ repo ++ str ": ")
      (str "failed to list merge requests for " ++ owner ++ str "/" ++ repo ++ str ": ")
      (merge_requests_page opts)
      (list (owner ++ str "/" ++ repo) (map_state_to_gitlab opts.state) opts.page opts.per_page)

not_all :
    (s : PullRequestState) (state : GoString)
    → state ≡ state_string s
    → map_state_to_gitlab state ≢ str "all"
unfolding map_state_to_gitlab state_string eq_str
not_all PullRequestState.closed state h = rw h (λ e. ground arith)
not_all PullRequestState.merged state h = rw h (λ e. ground arith)
not_all PullRequestState.open_state state h = rw h (λ e. ground arith)

-- If GitLab's list has only merge requests of the state that it is asked for, then a list filtered
-- by a unified state has only pull requests of that unified state.
pub list_pull_requests-filtered :
    (list : ListCall) (owner repo : GoString) (opts : PullRequestListOptions) (s : PullRequestState)
    (mrs : List MergeRequest) (total : ℤ)
    → ((project state : GoString) (page per_page : ℤ) (found : List MergeRequest) (n : ℤ)
        → state ≢ str "all"
        → list project state page per_page ≡ answered found n
        → All (λ mr. mr.state ≡ state) found)
    → opts.state ≡ state_string s
    → list (owner ++ str "/" ++ repo) (map_state_to_gitlab opts.state) opts.page opts.per_page
      ≡ answered mrs total
    → (r : PullRequestsResponse) × (list_pull_requests (ok list) owner repo opts ≡ ok r)
      × All (λ p. p.state ≡ s) r.items
unfolding list_pull_requests
list_pull_requests-filtered list owner repo opts s mrs total honest asked got = (
  merge_requests_page opts mrs total,
  ap
      (value_of (str "project " ++ owner ++ str "/" ++ repo ++ str ": ")
        (str "failed to list merge requests for " ++ owner ++ str "/" ++ repo ++ str ": ")
        (merge_requests_page opts))
      got,
  All-map convert_merge_request (λ mr. mr.state ≡ map_state_to_gitlab opts.state) (λ p. p.state ≡ s)
      mrs
      (λ mr e.
        ap normalize_merge_request_state (e ∙ ap map_state_to_gitlab asked)
        ∙ map_state-normalize_merge_request_state s)
      (honest (owner ++ str "/" ++ repo) (map_state_to_gitlab opts.state) opts.page opts.per_page
        mrs total (not_all s opts.state asked) got),
)
