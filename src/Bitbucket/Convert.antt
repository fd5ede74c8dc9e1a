-- ===== src/Bitbucket/Convert.antt =====
-- The conversions and mappings of internal/services/bitbucket/bitbucket.go.
use gitfusion.Prelude.{
  ◌≡◌, refl, Bool, false, none, some, List, [], ◌∷◌, GoString, str, contains, eq_str, ◌==◌, nat_eq,
  string_eq, if◌then◌else◌,
}
use gitfusion.Common.{value_or_empty}
use gitfusion.GoError.{
  GoError, Result, err, message, wrapped, sentinel, not_found, bitbucket_status_text,
}
use gitfusion.Models.{
  Repository, PullRequestState, open_state, merged, closed, PipelineStatus, PipelineSource,
  PipelineResponse, state_string,
}
use gitfusion.GitHub.Repositories.{has_prefix}
use gitfusion.Bitbucket.Types.{BitbucketRepository}

-- `isBitbucketNotFound`
unfoldable pub is_bitbucket_not_found : GoError → Bool
unfolding bitbucket_status_text has_prefix
is_bitbucket_not_found e = elim (bitbucket_status_text e) [
  | none ↦ false
  | some status ↦ has_prefix status (str "404")
]

-- The error of a library call, by the texts for a missing object and for any other failure.
unfoldable pub library_error : GoString → GoString → GoError → GoError
unfolding is_bitbucket_not_found
library_error missing failed e =
    if is_bitbucket_not_found e then wrapped missing (sentinel not_found) else wrapped failed e

-- `convertBitbucketRepoToRepository` at a repository that is not nil
unfoldable pub convert_repository : BitbucketRepository → Repository
convert_repository repo = record {
  default_branch = some repo.main_branch;
  description = some repo.description;
  id = repo.uuid;
  name = repo.name;
  owner = some (value_or_empty repo.owner_username);
  url = some (value_or_empty repo.html_href);
  visibility = none;
}

-- `convertBitbucketPRState`
unfoldable pub convert_state : GoString → PullRequestState
convert_state state =
    if state == str "OPEN"
    then open_state
    else if state == str "MERGED"
    then merged
    else if contains (str "DECLINED" ∷ str "SUPERSEDED" ∷ []) state
    then closed
    else open_state

-- The values of the query parameter `state`.
unfoldable pub state_query : GoString → List GoString
state_query state =
    if state == str "open"
    then str "OPEN" ∷ []
    else if state == str "closed"
    then str "DECLINED" ∷ []
    else if state == str "merged"
    then str "MERGED" ∷ []
    else if state == str "all"
    then str "OPEN" ∷ str "MERGED" ∷ str "DECLINED" ∷ str "SUPERSEDED" ∷ []
    else str "OPEN" ∷ []

completed_status : GoString → PipelineStatus
completed_status result =
    if result == str "SUCCESSFUL"
    then PipelineStatus.success
    else if contains (str "FAILED" ∷ str "ERROR" ∷ []) result
    then PipelineStatus.failed
    else if contains (str "STOPPED" ∷ str "EXPIRED" ∷ []) result
    then PipelineStatus.cancelled
    else PipelineStatus.failed

-- `normalizeBitbucketPipelineStatus`
unfoldable pub normalize_pipeline_status : GoString → GoString → PipelineStatus
unfolding completed_status
normalize_pipeline_status state result =
    if state == str "PENDING"
    then PipelineStatus.pending
    else if state == str "IN_PROGRESS"
    then PipelineStatus.running
    else if state == str "COMPLETED"
    then completed_status result
    else if contains (str "HALTED" ∷ str "PAUSED" ∷ []) state
    then PipelineStatus.manual
    else PipelineStatus.pending

-- `normalizeBitbucketPipelineTrigger`
unfoldable pub normalize_trigger : GoString → PipelineSource
normalize_trigger name =
    if name == str "PUSH"
    then PipelineSource.push
    else if name == str "PULL_REQUEST"
    then PipelineSource.merge_request
    else if name == str "SCHEDULE"
    then PipelineSource.schedule
    else if name == str "MANUAL"
    then PipelineSource.manual
    else if contains (str "TRIGGER" ∷ str "API" ∷ []) name
    then PipelineSource.trigger
    else PipelineSource.other

unfoldable pub trigger_pipeline : Result PipelineResponse
trigger_pipeline = err (message (str "trigger pipeline is not supported for Bitbucket"))

-- A state that is asked of Bitbucket for a unified state converts back to it.
pub state_query-convert_state :
    (s : PullRequestState)
    → (v : GoString) × (state_query (state_string s) ≡ v ∷ []) × (convert_state v ≡ s)
unfolding state_query convert_state state_string eq_str
state_query-convert_state PullRequestState.closed = (_, refl, refl)
state_query-convert_state PullRequestState.merged = (_, refl, refl)
state_query-convert_state PullRequestState.open_state = (_, refl, refl)
