-- ===== src/Server/Types.antt =====
-- What internal/api/server.go puts together: the caches, what lies outside the program, the requests
-- and their replies.
use gitfusion.Prelude.{Option, List, GoString}
use gitfusion.GoError.{Result}
use gitfusion.Models.{
  GitServerSettings, Repository, Organization, Branch, PullRequestsResponse, PipelinesResponse,
  PipelineJob, PipelineResponse, ListOptions, PullRequestListOptions,
}
use gitfusion.Cache.Client.{FetchingClient}
use gitfusion.Services.Provider.{Provider}
use gitfusion.Services.Krci.{Cluster}
use gitfusion.Services.PipelineTypes.{PipelineProviders, PipelineClients, PipelineCaches}
use gitfusion.Api.PullRequests
use gitfusion.Api.Pipelines
use gitfusion.Api.Pipelines.{TriggerParams, IdParams, JobTraceResponse}
use gitfusion.Api.Catalog.{Invalidated}

-- What the program's answer to a request depends on besides its caches, at the time of the request: the
-- cluster, and what the providers' implementations return.
pub record World (Float32 : Type 0) : Type 1 where
  pub cluster : Cluster
  pub repository_of : Provider → GoString → GoString → GitServerSettings → Result Repository
  pub repositories_of :
      Provider → GoString → GitServerSettings → ListOptions → Result (List Repository)
  pub organizations_of : Provider → GitServerSettings → Result (List Organization)
  pub branches_of :
      Provider → GoString → GoString → GitServerSettings → ListOptions → Result (List Branch)
  pub pull_requests_of :
      Provider
      → GoString
      → GoString
      → GitServerSettings
      → PullRequestListOptions
      → Result PullRequestsResponse
  pub pipelines : PipelineProviders Float32

pub record Caches (Float32 : Type 0) : Type 1 where
  pub settings : FetchingClient GitServerSettings
  pub repositories : FetchingClient (List Repository)
  pub organizations : FetchingClient (List Organization)
  pub branches : FetchingClient (List Branch)
  pub pull_requests : FetchingClient PullRequestsResponse
  pub pipelines : PipelineClients Float32

-- The state of the program is that of its caches.
pub record App {Float32 : Type 0} (c : Caches Float32) : Type 0 where
  pub settings : c.settings.client.Store
  pub repositories : c.repositories.client.Store
  pub organizations : c.organizations.client.Store
  pub branches : c.branches.client.Store
  pub pull_requests : c.pull_requests.client.Store
  pub pipelines : PipelineCaches c.pipelines

-- The methods of `StrictServerInterface`.
pub data Request : Type 0 where
  get_repository : GoString → GoString → GoString → Request
  list_repositories : GoString → GoString → Option GoString → Request
  list_user_organizations : GoString → Request
  list_branches : GoString → GoString → GoString → Request
  list_pull_requests : gitfusion.Api.PullRequests.ListParams → Request
  trigger_pipeline : TriggerParams → Request
  list_pipelines : gitfusion.Api.Pipelines.ListParams → Request
  list_pipeline_jobs : IdParams → Request
  get_pipeline_job_trace : IdParams → Request
  invalidate_cache : GoString → Request

-- The body of a successful response.
abbrev pub Reply : Type 0 → Request → Type 0
Reply Float32 (get_repository server owner repo) = Repository
Reply Float32 (list_repositories server owner name) = List Repository
Reply Float32 (list_user_organizations server) = List Organization
Reply Float32 (list_branches server owner repo) = List Branch
Reply Float32 (list_pull_requests q) = PullRequestsResponse
Reply Float32 (trigger_pipeline q) = PipelineResponse
Reply Float32 (list_pipelines q) = PipelinesResponse
Reply Float32 (list_pipeline_jobs q) = List (PipelineJob Float32)
Reply Float32 (get_pipeline_job_trace q) = JobTraceResponse
Reply Float32 (invalidate_cache endpoint) = Invalidated
