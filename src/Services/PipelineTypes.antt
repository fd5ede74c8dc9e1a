-- ===== src/Services/PipelineTypes.antt =====
-- The keys, the providers' calls and the caches of internal/services/pipelines/pipelines_provider.go.
use gitfusion.Prelude.{
  ℕ, Bool, true, false, Option, none, some, List, [], ◌∷◌, ◌++◌, GoString, str, ℤ, itoa, contains,
  if◌then◌else◌,
}
use gitfusion.GoError.{GoError, Result, ok, err, wrapped, sentinel, bad_request}
use gitfusion.Models.{
  GitServerSettings, PipelinesResponse, PipelineListOptions, PipelineJob, PipelineResponse,
  PipelineVariable,
}
use gitfusion.Cache.Client.{CacheClient, FetchingClient}
use gitfusion.Cache.Terminal.{Tiers}
use gitfusion.Cache.Manager.{JobTrace}
use gitfusion.Services.Keys.{join_bar}
use gitfusion.Services.Provider.{Provider, gitlab, github, bitbucket, provider_of}

-- `cache.MaxCacheableTraceBytes`
abbrev pub max_cacheable_trace_bytes : ℕ
max_cacheable_trace_bytes = 524288

unfoldable pub unsupported_provider : GoString → GoError
unsupported_provider name =
    wrapped (str "unsupported provider " ++ name ++ str ": ") (sentinel bad_request)

-- What the key of a list request prints.
pub record PipelinesRequest : Type 0 where
  pub git_server : GoString
  pub project : GoString
  pub ref : GoString
  pub status : GoString
  pub page : ℤ
  pub per_page : ℤ

abbrev pub pipelines_fields : PipelinesRequest → List GoString
pipelines_fields r =
    r.git_server ∷ r.project ∷ r.ref ∷ r.status ∷ itoa r.page ∷ itoa r.per_page ∷ []

unfoldable pub pipelines_key : PipelinesRequest → GoString
pipelines_key r = join_bar (pipelines_fields r)

-- A pipeline or a job, by its number, as the keys of jobs and of traces print it.
pub record NumberRequest : Type 0 where
  pub git_server : GoString
  pub project : GoString
  pub number : ℤ

abbrev pub number_fields : NumberRequest → List GoString
number_fields r = r.git_server ∷ r.project ∷ itoa r.number ∷ []

unfoldable pub number_key : NumberRequest → GoString
number_key r = join_bar (number_fields r)

-- `terminalJobStatuses` and `isTerminalJobStatus`
unfoldable pub is_terminal_job_status : GoString → Bool
is_terminal_job_status status =
    contains (str "success" ∷ str "failed" ∷ str "canceled" ∷ str "skipped" ∷ []) status

unfoldable pub terminal_job_key : GoString → GoString → GoString
terminal_job_key server id = join_bar (server ∷ id ∷ [])

-- The type assertion `provider.(PipelineJobsProvider)`: of the three providers, GitLab's alone has
-- the methods `ListPipelineJobs` and `GetJobTrace`.
abbrev supports_jobs : Provider → Bool
supports_jobs gitlab = true
supports_jobs github = false
supports_jobs bitbucket = false

jobs_from : GoString → Option Provider → Result Provider
jobs_from name none = err (unsupported_provider name)
jobs_from name (some p) =
    if supports_jobs p
    then ok p
    else err (
        wrapped (str "provider " ++ name ++ str " does not support pipeline jobs: ")
          (sentinel bad_request))

unfoldable pub jobs_provider : GoString → Result Provider
unfolding jobs_from
jobs_provider name = jobs_from name (provider_of name)

-- The calls that the providers implement.
pub record PipelineProviders (Float32 : Type 0) : Type 0 where
  pub trigger_of :
      Provider
      → GoString
      → GoString
      → List PipelineVariable
      → GitServerSettings
      → Result PipelineResponse
  pub list_of :
      Provider → GoString → GitServerSettings → PipelineListOptions → Result PipelinesResponse
  pub jobs_of : Provider → GoString → ℤ → GitServerSettings → Result (List (PipelineJob Float32))
  pub trace_of : Provider → GoString → ℤ → GitServerSettings → Result (GoString × Bool)

-- The service's caches; the traces are in two tiers, and `terminal_jobs` marks finished jobs.
pub record PipelineClients (Float32 : Type 0) : Type 1 where
  pub pipelines : FetchingClient PipelinesResponse
  pub jobs : FetchingClient (List (PipelineJob Float32))
  pub traces : CacheClient JobTrace
  pub terminal_jobs : CacheClient Bool

pub record PipelineCaches {Float32 : Type 0} (c : PipelineClients Float32) : Type 0 where
  pub pipelines : c.pipelines.client.Store
  pub jobs : c.jobs.client.Store
  pub traces : Tiers c.traces
  pub terminal_jobs : c.terminal_jobs.Store
