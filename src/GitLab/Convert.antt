-- ===== src/GitLab/Convert.antt =====
-- The statuses, sources, states and errors of internal/services/gitlab/gitlab.go.
use gitfusion.Prelude.{
  ◌≡◌, refl, Bool, false, ◌||◌, Option, none, some, [], ◌∷◌, ◌++◌, GoString, str, ◌==◌, nat_eq,
  string_eq, eq_str, contains, ℤ, itoa, if◌then◌else◌, ℕ,
}
use gitfusion.GoError.{
  GoError, wrapped, message, sentinel, not_found, unauthorized, is_gitlab_not_found, gitlab_status,
}
use gitfusion.Models.{
  PipelineStatus, PipelineSource, PullRequestState, open_state, merged, closed, status_string,
  state_string,
}

-- `normalizeGitLabPipelineStatus`
unfoldable pub normalize_pipeline_status : GoString → PipelineStatus
normalize_pipeline_status status =
    if contains (str "pending" ∷ str "created" ∷ str "waiting_for_resource" ∷ str "preparing" ∷ [])
      status
    then PipelineStatus.pending
    else if status == str "running"
    then PipelineStatus.running
    else if status == str "success"
    then PipelineStatus.success
    else if status == str "failed"
    then PipelineStatus.failed
    else if status == str "canceled"
    then PipelineStatus.cancelled
    else if status == str "skipped"
    then PipelineStatus.skipped
    else if contains (str "manual" ∷ str "scheduled" ∷ []) status
    then PipelineStatus.manual
    else PipelineStatus.pending

-- `normalizeGitLabPipelineSource`
unfoldable pub normalize_pipeline_source : GoString → PipelineSource
normalize_pipeline_source source =
    if source == str "push"
    then PipelineSource.push
    else if source == str "merge_request_event"
    then PipelineSource.merge_request
    else if source == str "schedule"
    then PipelineSource.schedule
    else if contains (str "web" ∷ str "chat" ∷ []) source
    then PipelineSource.manual
    else if contains (str "trigger" ∷ str "pipeline" ∷ str "api" ∷ []) source
    then PipelineSource.trigger
    else PipelineSource.other

-- `mapPipelineStatusToGitLab`; a `gitlab.BuildStateValue` is its string.
unfoldable pub map_status_to_gitlab : GoString → Option GoString
map_status_to_gitlab status =
    if status == str "pending"
    then some (str "pending")
    else if status == str "running"
    then some (str "running")
    else if status == str "success"
    then some (str "success")
    else if status == str "failed"
    then some (str "failed")
    else if status == str "cancelled"
    then some (str "canceled")
    else if status == str "skipped"
    then some (str "skipped")
    else if status == str "manual"
    then some (str "manual")
    else none

-- `mapPullRequestStateToGitLab`
unfoldable pub map_state_to_gitlab : GoString → GoString
map_state_to_gitlab state =
    if state == str "open"
    then str "opened"
    else if state == str "closed"
    then str "closed"
    else if state == str "merged"
    then str "merged"
    else if state == str "all"
    then str "all"
    else str "opened"

-- `normalizeGitLabMRState`
unfoldable pub normalize_merge_request_state : GoString → PullRequestState
normalize_merge_request_state state =
    if state == str "opened"
    then open_state
    else if state == str "merged"
    then merged
    else if state == str "closed"
    then closed
    else open_state

unfoldable pub has_status : Option ℕ → ℕ → Bool
has_status none n = false
has_status (some status) n = status == n

-- `mapGitLabJobsError`
unfoldable pub map_jobs_error : GoError → GoString → ℤ → GoError
unfolding has_status itoa
map_jobs_error e project id =
    if is_gitlab_not_found e || has_status (gitlab_status e) 404
    then wrapped (str "project " ++ project ++ str " or id " ++ itoa id ++ str ": ")
        (sentinel not_found)
    else if has_status (gitlab_status e) 401 || has_status (gitlab_status e) 403
    then wrapped (str "invalid credentials: ") (sentinel unauthorized)
    else wrapped
        (str "gitlab jobs request failed for " ++ project ++ str " id " ++ itoa id ++ str ": ") e

-- `mapGitLabTraceStatus`
unfoldable pub map_trace_status : ℕ → GoString → ℤ → GoError
unfolding itoa
map_trace_status status project job_id =
    if status == 404
    then wrapped (str "project " ++ project ++ str " or job " ++ itoa job_id ++ str ": ")
        (sentinel not_found)
    else if status == 401 || status == 403
    then wrapped (str "invalid credentials: ") (sentinel unauthorized)
    else message (
        str "gitlab trace request failed for "
        ++ project
        ++ str " job "
        ++ itoa job_id
        ++ str ": status "
        ++ itoa (ℤ.pos status))

-- Every unified status has a filter value for GitLab, which normalizes back to it.
pub map_status-normalize_pipeline_status :
    (s : PipelineStatus)
    → (v : GoString) × (map_status_to_gitlab (status_string s) ≡ some v)
      × (normalize_pipeline_status v ≡ s)
unfolding map_status_to_gitlab normalize_pipeline_status status_string eq_str
map_status-normalize_pipeline_status PipelineStatus.cancelled = (_, refl, refl)
map_status-normalize_pipeline_status PipelineStatus.failed = (_, refl, refl)
map_status-normalize_pipeline_status PipelineStatus.manual = (_, refl, refl)
map_status-normalize_pipeline_status PipelineStatus.pending = (_, refl, refl)
map_status-normalize_pipeline_status PipelineStatus.running = (_, refl, refl)
map_status-normalize_pipeline_status PipelineStatus.skipped = (_, refl, refl)
map_status-normalize_pipeline_status PipelineStatus.success = (_, refl, refl)

-- The state that is asked of GitLab for a unified state normalizes back to it.
pub map_state-normalize_merge_request_state :
    (s : PullRequestState)
    → normalize_merge_request_state (map_state_to_gitlab (state_string s)) ≡ s
unfolding map_state_to_gitlab normalize_merge_request_state state_string eq_str
map_state-normalize_merge_request_state PullRequestState.closed = refl
map_state-normalize_merge_request_state PullRequestState.merged = refl
map_state-normalize_merge_request_state PullRequestState.open_state = refl
