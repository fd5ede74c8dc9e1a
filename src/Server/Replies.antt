-- ===== src/Server/Replies.antt =====
-- What a reply of internal/api/server.go says about its request.
use gitfusion.Prelude.{◌≡◌, some, List, [], ◌∷◌, GoString, ℤ}
use gitfusion.GoError.{Result, ok}
use gitfusion.Common.{value_or_empty}
use gitfusion.Models.{PipelineVariable}
use gitfusion.Cache.Manager.{JobTrace}
use gitfusion.Api.Numbers.{atoi}
use gitfusion.Api.PullRequests as PullRequestHandler
use gitfusion.Api.Pipelines as PipelineHandler
use gitfusion.Server.Types.{
  Reply, Request, get_repository, list_repositories, list_user_organizations, list_branches,
  list_pull_requests, trigger_pipeline, list_pipelines, list_pipeline_jobs, get_pipeline_job_trace,
  invalidate_cache,
}
use gitfusion.Server.Claims.{Claims}

-- The texts of a request that the keys of the caches print.
abbrev pub texts : Request → List GoString
texts (get_repository server owner repo) = []
texts (list_repositories server owner name) = server ∷ owner ∷ value_or_empty name ∷ []
texts (list_user_organizations server) = []
texts (list_branches server owner repo) = server ∷ owner ∷ repo ∷ []
texts (list_pull_requests q) =
    q.git_server ∷ q.owner ∷ q.repo_name ∷ PullRequestHandler.state_or_open q.state ∷ []
texts (trigger_pipeline q) = []
texts (list_pipelines q) =
    q.git_server ∷ q.project ∷ value_or_empty q.ref ∷ value_or_empty q.status ∷ []
texts (list_pipeline_jobs q) = q.git_server ∷ q.project ∷ []
texts (get_pipeline_job_trace q) = q.git_server ∷ q.project ∷ []
texts (invalidate_cache endpoint) = []

-- The reply has what is claimed of answers to the request.
module _ {Float32 : Type 0} (a : Claims Float32)
    (unmarshal : GoString → Result (List PipelineVariable)) where
  abbrev pub IsReply : (r : Request) → Reply Float32 r → Type 0
  IsReply (get_repository server owner repo) v = a.repository server owner repo v
  IsReply (list_repositories server owner name) v =
      a.repositories (record { git_server = server; owner = owner; name = value_or_empty name }) v
  IsReply (list_user_organizations server) v = a.organizations server v
  IsReply (list_branches server owner repo) v =
      a.branches (record { git_server = server; owner = owner; repo = repo; name = [] }) v
  IsReply (list_pull_requests q) v =
      let opts = PullRequestHandler.list_options q in
      a.pull_requests
        (record {
          git_server = q.git_server;
          owner = q.owner;
          repo = q.repo_name;
          state = opts.state;
          page = opts.page;
          per_page = opts.per_page;
        })
        v
  IsReply (trigger_pipeline q) v =
      (variables : List PipelineVariable) × (PipelineHandler.parse_variables unmarshal q.variables
        ≡ ok variables)
      × a.triggered q.git_server q.project q.ref variables v
  IsReply (list_pipelines q) v =
      let opts = PipelineHandler.list_options q in
      a.pipelines
        (record {
          git_server = q.git_server;
          project = q.project;
          ref = value_or_empty opts.ref;
          status = value_or_empty opts.status;
          page = opts.page;
          per_page = opts.per_page;
        })
        v
  IsReply (list_pipeline_jobs q) v =
      (n : ℤ) × (atoi q.id ≡ some n)
      × a.jobs (record { git_server = q.git_server; project = q.project; number = n }) v
  IsReply (get_pipeline_job_trace q) v =
      (n : ℤ) × (t : JobTrace) × (atoi q.id ≡ some n)
      × a.traces (record { git_server = q.git_server; project = q.project; number = n }) t
      × (v ≡ record { job_id = q.id; content = t.content; truncated = some t.truncated })
  IsReply (invalidate_cache endpoint) v = Unit {0}
