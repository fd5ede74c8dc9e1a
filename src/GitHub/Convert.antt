-- ===== src/GitHub/Convert.antt =====
-- The conversions and mappings of internal/services/github/github.go and github_pipelines.go.
use gitfusion.Prelude.{
  Bool, true, false, ◌||◌, Option, none, some, [], ◌∷◌, GoString, str, ◌==◌, nat_eq, string_eq,
  contains, ℤ, pos, itoa, nonempty, if◌then◌else◌,
}
use gitfusion.Common.{value_or_empty}
use gitfusion.GoError.{GoError, wrapped, sentinel, Sentinel, not_found, unauthorized, github_status}
use gitfusion.Models.{
  Time, zero_time, Repository, RepositoryVisibility, private_repo, public_repo, PullRequest,
  PullRequestState, merged, closed, open_state, Owner, PipelineStatus, PipelineSource,
}
use gitfusion.GitHub.Types.{User, GithubRepository, PullRequestBranch, GithubPullRequest}

-- The client's accessors: the zero value for a nil pointer.
abbrev pub int_or_zero : Option ℤ → ℤ
int_or_zero none = pos 0
int_or_zero (some n) = n

abbrev pub bool_or_false : Option Bool → Bool
bool_or_false none = false
bool_or_false (some b) = b

abbrev pub time_or_zero : Option Time → Time
time_or_zero none = zero_time
time_or_zero (some t) = t

abbrev pub is_set : {A : Type 0} → Option A → Bool
is_set none = false
is_set (some a) = true

-- `classifyGitHubError`
unfoldable pub classify_github_error : GoError → Option Sentinel
classify_github_error e = elim (github_status e) [
  | none ↦ none
  | some status ↦
      if status == 404 then some not_found else if status == 401 then some unauthorized else none
]

-- `if sentinel := classifyGitHubError(err); sentinel != nil { … %w sentinel } … %w err`
unfoldable pub github_error : GoString → GoString → GoError → GoError
unfolding classify_github_error
github_error known unknown e = elim (classify_github_error e) [
  | some s ↦ wrapped known (sentinel s)
  | none ↦ wrapped unknown e
]

unfoldable pub convert_visibility : Bool → Option RepositoryVisibility
convert_visibility is_private = if is_private then some private_repo else some public_repo

login_of : Option User → GoString
login_of none = []
login_of (some u) = value_or_empty u.login

-- `convertGitHubRepoToRepository` at a repository that is not nil
unfoldable pub convert_repository : GithubRepository → Repository
unfolding convert_visibility login_of itoa
convert_repository repo = record {
  default_branch = repo.default_branch;
  description = repo.description;
  id = itoa (int_or_zero repo.id);
  name = value_or_empty repo.name;
  owner = some (login_of repo.owner);
  url = some (value_or_empty repo.html_url);
  visibility = convert_visibility (bool_or_false repo.is_private);
}

unfoldable pub map_state_to_github : GoString → GoString
map_state_to_github state =
    if state == str "merged" || state == str "closed"
    then str "closed"
    else if state == str "open"
    then str "open"
    else str "all"

unfoldable pub matches_state_filter : GoString → GithubPullRequest → Bool
matches_state_filter state pr =
    if state == str "merged"
    then is_set pr.merged_at
    else if state == str "closed"
    then (if is_set pr.merged_at then false else true)
    else true

unfoldable pub pull_request_state : GithubPullRequest → PullRequestState
pull_request_state pr =
    if is_set pr.merged_at
    then merged
    else if value_or_empty pr.state == str "closed"
    then closed
    else open_state

ref_of : Option PullRequestBranch → GoString
ref_of none = []
ref_of (some b) = value_or_empty b.ref

commit_of : Option PullRequestBranch → Option GoString
commit_of none = none
commit_of (some b) = if nonempty (value_or_empty b.sha) then b.sha else none

author_of : Option User → Option Owner
unfolding itoa
author_of none = none
author_of (some u) = some (record {
  id = itoa (int_or_zero u.id);
  name = value_or_empty u.login;
  avatar_url = u.avatar_url;
})

unfoldable pub convert_pull_request : GithubPullRequest → PullRequest
unfolding pull_request_state ref_of commit_of author_of itoa
convert_pull_request pr = record {
  author = author_of pr.user;
  commit_sha = commit_of pr.head;
  created_at = time_or_zero pr.created_at;
  description = if nonempty (value_or_empty pr.body) then pr.body else none;
  draft = pr.draft;
  id = itoa (int_or_zero pr.id);
  number = int_or_zero pr.number;
  source_branch = ref_of pr.head;
  state = pull_request_state pr;
  target_branch = ref_of pr.base;
  title = value_or_empty pr.title;
  updated_at = time_or_zero pr.updated_at;
  url = value_or_empty pr.html_url;
}

-- `normalizeGitHubWorkflowRunStatus`
completed_status : GoString → PipelineStatus
completed_status conclusion =
    if contains (str "success" ∷ str "neutral" ∷ []) conclusion
    then PipelineStatus.success
    else if contains (str "failure" ∷ str "timed_out" ∷ str "startup_failure" ∷ []) conclusion
    then PipelineStatus.failed
    else if conclusion == str "cancelled"
    then PipelineStatus.cancelled
    else if conclusion == str "skipped"
    then PipelineStatus.skipped
    else if conclusion == str "action_required"
    then PipelineStatus.manual
    else if conclusion == str "stale"
    then PipelineStatus.cancelled
    else PipelineStatus.failed

unfoldable pub normalize_run_status : GoString → GoString → PipelineStatus
unfolding completed_status
normalize_run_status status conclusion =
    if contains (str "queued" ∷ str "pending" ∷ str "waiting" ∷ str "requested" ∷ []) status
    then PipelineStatus.pending
    else if status == str "in_progress"
    then PipelineStatus.running
    else if status == str "completed"
    then completed_status conclusion
    else PipelineStatus.pending

-- `normalizeGitHubWorkflowRunEvent`
unfoldable pub normalize_run_event : GoString → PipelineSource
normalize_run_event event =
    if event == str "push"
    then PipelineSource.push
    else if contains (str "pull_request" ∷ str "pull_request_target" ∷ []) event
    then PipelineSource.merge_request
    else if event == str "schedule"
    then PipelineSource.schedule
    else if event == str "workflow_dispatch"
    then PipelineSource.manual
    else if contains (str "repository_dispatch" ∷ str "workflow_call" ∷ []) event
    then PipelineSource.trigger
    else PipelineSource.other

-- `mapPipelineStatusToGitHub`
unfoldable pub map_status_to_github : GoString → Option GoString
map_status_to_github status =
    if status == str "pending"
    then some (str "queued")
    else if status == str "running"
    then some (str "in_progress")
    else if status == str "success"
    then some (str "success")
    else if status == str "failed"
    then some (str "failure")
    else if status == str "cancelled"
    then some (str "cancelled")
    else if status == str "skipped"
    then some (str "skipped")
    else if status == str "manual"
    then some (str "action_required")
    else none
