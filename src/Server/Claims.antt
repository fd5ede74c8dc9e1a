-- ===== src/Server/Claims.antt =====
-- What may be claimed of the replies of internal/api/server.go.
use gitfusion.Prelude.{◌≡◌, List, GoString, ℤ}
use gitfusion.GoError.{ok}
use gitfusion.Common.{value_or_empty}
use gitfusion.Models.{
  GitServerSettings, Repository, Organization, Branch, PullRequestsResponse, PipelinesResponse,
  PipelineJob, PipelineResponse, PipelineVariable, ListOptions, PullRequestListOptions,
  PipelineListOptions,
}
use gitfusion.Cache.Manager.{JobTrace}
use gitfusion.Services.Provider.{Provider}
use gitfusion.Services.Repositories.{RepositoriesRequest}
use gitfusion.Services.Branches.{BranchRequest}
use gitfusion.Services.PullRequests.{PullRequestsRequest}
use gitfusion.Services.PipelineTypes.{PipelinesRequest, NumberRequest, PipelineClients}
use gitfusion.Services.Pipelines.Requests.{IsTruthful as IsTruthfulOnJobs}
use gitfusion.Server.Types.{World}

-- What is claimed of the answers, for each kind of request, and of finished jobs.
pub record Claims (Float32 : Type 0) : Type 1 where
  pub repository : GoString → GoString → GoString → Repository → Type 0
  pub repositories : RepositoriesRequest → List Repository → Type 0
  pub organizations : GoString → List Organization → Type 0
  pub branches : BranchRequest → List Branch → Type 0
  pub pull_requests : PullRequestsRequest → PullRequestsResponse → Type 0
  pub triggered : GoString → GoString → GoString → List PipelineVariable → PipelineResponse → Type 0
  pub pipelines : PipelinesRequest → PipelinesResponse → Type 0
  pub jobs : NumberRequest → List (PipelineJob Float32) → Type 0
  pub traces : NumberRequest → JobTrace → Type 0
  pub finished : GoString → GoString → Type 0

-- Each claim holds of what the providers return in a world.
pub record IsTruthful {Float32 : Type 0} (c : PipelineClients Float32) (a : Claims Float32)
    (w : World Float32) : Type 0 where
  pub repository :
      (p : Provider) (owner repo : GoString) (settings : GitServerSettings) (v : Repository)
      → w.repository_of p owner repo settings ≡ ok v
      → a.repository settings.git_server_name owner repo v
  pub repositories :
      (p : Provider) (owner : GoString) (settings : GitServerSettings) (opts : ListOptions)
      (v : List Repository)
      → w.repositories_of p owner settings opts ≡ ok v
      → a.repositories
          (record {
            git_server = settings.git_server_name;
            owner = owner;
            name = value_or_empty opts.name;
          })
          v
  pub organizations :
      (p : Provider) (settings : GitServerSettings) (v : List Organization)
      → w.organizations_of p settings ≡ ok v
      → a.organizations settings.git_server_name v
  pub branches :
      (p : Provider) (owner repo : GoString) (settings : GitServerSettings) (opts : ListOptions)
      (v : List Branch)
      → w.branches_of p owner repo settings opts ≡ ok v
      → a.branches
          (record {
            git_server = settings.git_server_name;
            owner = owner;
            repo = repo;
            name = value_or_empty opts.name;
          })
          v
  pub pull_requests :
      (p : Provider) (owner repo : GoString) (settings : GitServerSettings)
      (opts : PullRequestListOptions) (v : PullRequestsResponse)
      → w.pull_requests_of p owner repo settings opts ≡ ok v
      → a.pull_requests
          (record {
            git_server = settings.git_server_name;
            owner = owner;
            repo = repo;
            state = opts.state;
            page = opts.page;
            per_page = opts.per_page;
          })
          v
  pub triggered :
      (p : Provider) (project ref : GoString) (variables : List PipelineVariable)
      (settings : GitServerSettings) (v : PipelineResponse)
      → w.pipelines.trigger_of p project ref variables settings ≡ ok v
      → a.triggered settings.git_server_name project ref variables v
  pub pipelines :
      (p : Provider) (project : GoString) (settings : GitServerSettings)
      (opts : PipelineListOptions) (v : PipelinesResponse)
      → w.pipelines.list_of p project settings opts ≡ ok v
      → a.pipelines
          (record {
            git_server = settings.git_server_name;
            project = project;
            ref = value_or_empty opts.ref;
            status = value_or_empty opts.status;
            page = opts.page;
            per_page = opts.per_page;
          })
          v
  pub jobs :
      (p : Provider) (project : GoString) (id : ℤ) (settings : GitServerSettings)
      (v : List (PipelineJob Float32))
      → w.pipelines.jobs_of p project id settings ≡ ok v
      → a.jobs (record { git_server = settings.git_server_name; project = project; number = id }) v
  pub on_jobs : IsTruthfulOnJobs c w.pipelines a.traces a.finished
