-- ===== src/Server/Sound.antt =====
-- What holds of the caches of internal/api/server.go at all times, and of the replies.
use gitfusion.Prelude.{◌≡◌, true, some, GoString, All, nonempty}
use gitfusion.Models.{GitServerSettings}
use gitfusion.Services.Keys.{NoBar}
use gitfusion.Services.Cached.{IsFaithful}
use gitfusion.Services.Repositories.{repository_fields, repository_key, repository_key-injective}
use gitfusion.Services.Branches.{branch_fields, branch_key, branch_key-injective}
use gitfusion.Services.PullRequests.{
  pull_request_fields, pull_request_key, pull_request_key-injective,
}
use gitfusion.Services.PipelineTypes.{pipelines_fields, pipelines_key, number_fields, number_key}
use gitfusion.Services.Pipelines.Lists.{pipelines_key-injective, number_key-injective}
use gitfusion.Services.Pipelines.Traces.{IsTraceState}
use gitfusion.Server.Types.{Caches, App}
use gitfusion.Server.Claims.{Claims}

module _ {Float32 : Type 0} (c : Caches Float32) (a : Claims Float32) where
  -- Settings under a server's name are that server's, with a token; and each other entry under the key of
  -- a request without `|` has what is claimed of answers to that request.
  pub record IsSoundApp (s : App c) : Type 0 where
    pub settings :
        (server : GoString) (v : GitServerSettings)
        → c.settings.client.get server s.settings ≡ some v
        → (v.git_server_name ≡ server) × (nonempty v.token ≡ true)
    pub repositories :
        IsFaithful c.repositories repository_key
          (λ r. All NoBar (repository_fields r))
          a.repositories
          repository_key-injective
          s.repositories
    pub organizations :
        IsFaithful c.organizations
          (λ n. n)
          (λ n. Unit {0})
          a.organizations
          (λ r q p e. e)
          s.organizations
    pub branches :
        IsFaithful c.branches branch_key
          (λ r. All NoBar (branch_fields r))
          a.branches
          branch_key-injective
          s.branches
    pub pull_requests :
        IsFaithful c.pull_requests pull_request_key
          (λ r. All NoBar (pull_request_fields r))
          a.pull_requests
          pull_request_key-injective
          s.pull_requests
    pub pipelines :
        IsFaithful c.pipelines.pipelines pipelines_key
          (λ r. All NoBar (pipelines_fields r))
          a.pipelines
          pipelines_key-injective
          s.pipelines.pipelines
    pub jobs :
        IsFaithful c.pipelines.jobs number_key
          (λ r. All NoBar (number_fields r))
          a.jobs
          number_key-injective
          s.pipelines.jobs
    pub traces : IsTraceState c.pipelines a.traces a.finished s.pipelines
