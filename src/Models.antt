-- ===== src/Models.antt =====
-- The unified data model: internal/models/models_gen.go and internal/models/list.go.
-- A pointer field is an `Option`. `time.Time` is an instant, the zero time being 0.
use gitfusion.Prelude.{Bool, Option, List, GoString, str, ℤ, pos}

abbrev pub Time : Type 0
Time = ℤ

abbrev pub zero_time : Time
zero_time = pos 0

pub data PipelineSource : Type 0 where
  manual merge_request other push schedule trigger : PipelineSource

pub data PipelineStatus : Type 0 where
  cancelled failed manual pending running skipped success : PipelineStatus

pub data PullRequestState : Type 0 where
  closed merged open_state : PullRequestState

pub data RepositoryVisibility : Type 0 where
  private_repo public_repo : RepositoryVisibility

-- The string constants behind the enumeration types.
unfoldable pub status_string : PipelineStatus → GoString
status_string cancelled = str "cancelled"
status_string failed = str "failed"
status_string manual = str "manual"
status_string pending = str "pending"
status_string running = str "running"
status_string skipped = str "skipped"
status_string success = str "success"

unfoldable pub state_string : PullRequestState → GoString
state_string closed = str "closed"
state_string merged = str "merged"
state_string open_state = str "open"

pub record Branch : Type 0 where
  pub name : GoString

pub record Organization : Type 0 where
  pub avatar_url : Option GoString
  pub id : GoString
  pub name : GoString

pub record Owner : Type 0 where
  pub avatar_url : Option GoString
  pub id : GoString
  pub name : GoString

pub record Pagination : Type 0 where
  pub page : Option ℤ
  pub per_page : Option ℤ
  pub total : ℤ

pub record Pipeline : Type 0 where
  pub created_at : Time
  pub id : GoString
  pub project_id : Option GoString
  pub ref : GoString
  pub sha : GoString
  pub source : Option PipelineSource
  pub status : PipelineStatus
  pub updated_at : Option Time
  pub web_url : GoString

-- The duration is a Go `float32`, a type that the model takes as a parameter.
pub record PipelineJob (Float32 : Type 0) : Type 0 where
  pub allow_failure : Option Bool
  pub created_at : Option Time
  pub duration : Option Float32
  pub failure_reason : Option GoString
  pub finished_at : Option Time
  pub id : GoString
  pub name : GoString
  pub ref : Option GoString
  pub stage : GoString
  pub started_at : Option Time
  pub status : GoString
  pub web_url : Option GoString

pub record PipelineResponse : Type 0 where
  pub id : ℤ
  pub ref : GoString
  pub sha : Option GoString
  pub status : GoString
  pub web_url : GoString

pub record PipelineVariable : Type 0 where
  pub key : GoString
  pub value : GoString
  pub variable_type : Option GoString

pub record PipelinesResponse : Type 0 where
  pub items : List Pipeline
  pub pagination : Pagination

pub record PullRequest : Type 0 where
  pub author : Option Owner
  pub commit_sha : Option GoString
  pub created_at : Time
  pub description : Option GoString
  pub draft : Option Bool
  pub id : GoString
  pub number : ℤ
  pub source_branch : GoString
  pub state : PullRequestState
  pub target_branch : GoString
  pub title : GoString
  pub updated_at : Time
  pub url : GoString

pub record PullRequestsResponse : Type 0 where
  pub items : List PullRequest
  pub pagination : Pagination

pub record Repository : Type 0 where
  pub default_branch : Option GoString
  pub description : Option GoString
  pub id : GoString
  pub name : GoString
  pub owner : Option GoString
  pub url : Option GoString
  pub visibility : Option RepositoryVisibility

pub record ListOptions : Type 0 where
  pub name : Option GoString

pub record PullRequestListOptions : Type 0 where
  pub state : GoString
  pub page : ℤ
  pub per_page : ℤ

pub record PipelineListOptions : Type 0 where
  pub ref : Option GoString
  pub status : Option GoString
  pub page : ℤ
  pub per_page : ℤ

-- `krci.GitServerSettings` (internal/services/krci/gitserver.go).
pub record GitServerSettings : Type 0 where
  pub url : GoString
  pub token : GoString
  pub git_provider : GoString
  pub git_server_name : GoString
