-- ===== src/Server/Answers.antt =====
-- The first list request to internal/api/server.go after an invalidation, when the provider has an answer.
use gitfusion.Prelude.{
  Option, ◌≡◌, ap, ◌∙◌, none, some, List, [], ℤ, GoString, str, string_eq, eq_str,
}
use gitfusion.GoError.{Result, ok}
use gitfusion.Models.{GitServerSettings, PipelineVariable}
use gitfusion.Cache.Manager.Laws.{invalidate_cache-IsInvalidated}
use gitfusion.Services.Provider.{Provider, provider_of}
use gitfusion.Services.Krci.{get_settings}
use gitfusion.Services.Dispatch.Kept.{dispatch-miss, serve-ok}
use gitfusion.Services.Repositories as RepositoriesService
use gitfusion.Services.Organizations as OrganizationsService
use gitfusion.Services.Branches as BranchesService
use gitfusion.Services.PullRequests as PullRequestsService
use gitfusion.Services.Pipelines
use gitfusion.Services.PipelineTypes.{jobs_provider}
use gitfusion.Services.Pipelines.Jobs.{multi_list_jobs-miss}
use gitfusion.Services.Pipelines.Service as PipelinesService
use gitfusion.Api.Responses.{success}
use gitfusion.Api.Numbers.{atoi}
use gitfusion.Api.Catalog as CatalogHandler
use gitfusion.Api.PullRequests as PullRequestHandler
use gitfusion.Api.Pipelines as PipelineHandler
use gitfusion.Server.Types.{
  World, Caches, App, Reply, Request, get_repository, list_repositories, list_user_organizations,
  list_branches, list_pull_requests, trigger_pipeline, list_pipelines, list_pipeline_jobs,
  get_pipeline_job_trace, invalidate_cache,
}
use gitfusion.Server.Handle.{handle, pipelines_service, clients, manager_of}
use gitfusion.Server.Fresh.{endpoint_of}

-- The Git server of a list request.
abbrev pub server_of : Request → GoString
server_of (get_repository server owner repo) = server
server_of (list_repositories server owner name) = server
server_of (list_user_organizations server) = server
server_of (list_branches server owner repo) = server
server_of (list_pull_requests q) = q.git_server
server_of (trigger_pipeline q) = q.git_server
server_of (list_pipelines q) = q.git_server
server_of (list_pipeline_jobs q) = q.git_server
server_of (get_pipeline_job_trace q) = q.git_server
server_of (invalidate_cache endpoint) = []

-- The provider has an answer to a list request; a job list is for a pipeline with a number, and needs
-- a provider that lists jobs. Nothing is said of the requests that are no lists.
module _ {Float32 : Type 0} (w : World Float32) (p : Provider) (settings : GitServerSettings) where
  abbrev pub IsProvided : (r : Request) → Reply Float32 r → Type 0
  IsProvided (get_repository server owner repo) v = ⊥
  IsProvided (list_repositories server owner name) v =
      w.repositories_of p owner settings (record { name = name }) ≡ ok v
  IsProvided (list_user_organizations server) v = w.organizations_of p settings ≡ ok v
  IsProvided (list_branches server owner repo) v =
      w.branches_of p owner repo settings (record { name = none }) ≡ ok v
  IsProvided (list_pull_requests q) v =
      w.pull_requests_of p q.owner q.repo_name settings (PullRequestHandler.list_options q) ≡ ok v
  IsProvided (trigger_pipeline q) v = ⊥
  IsProvided (list_pipelines q) v =
      w.pipelines.list_of p q.project settings (PipelineHandler.list_options q) ≡ ok v
  IsProvided (list_pipeline_jobs q) v =
      (id : ℤ) × (atoi q.id ≡ some id)
      × (jobs_provider settings.git_provider ≡ ok p)
      × (w.pipelines.jobs_of p q.project id settings ≡ ok v)
  IsProvided (get_pipeline_job_trace q) v = ⊥
  IsProvided (invalidate_cache endpoint) v = ⊥

module _ {Float32 : Type 0} (c : Caches Float32)
    (unmarshal : GoString → Result (List PipelineVariable)) (v w : World Float32) (s : App c)
    (settings : GitServerSettings) (p : Provider)
    (known : provider_of settings.git_provider ≡ some p) where
  -- The state after the invalidation of the endpoint of a request.
  abbrev emptied : GoString → App c
  emptied endpoint = (handle c v unmarshal (invalidate_cache endpoint) s).1

  answers_branches :
      (server owner repo : GoString) (x : Reply Float32 (list_branches server owner repo))
      → (get_settings w.cluster c.settings server s.settings).0 ≡ ok settings
      → IsProvided w p settings (list_branches server owner repo) x
      → (handle c w unmarshal (list_branches server owner repo) (emptied (str "branches"))).0
        ≡ success 200 x
  unfolding handle CatalogHandler.list_branches CatalogHandler.handle_invalidate
      BranchesService.list_branches BranchesService.multi_list_branches eq_str
  answers_branches server owner repo x got provided = ap CatalogHandler.answer (
      serve-ok w.cluster c.settings server _ _ settings got
      ∙ dispatch-miss c.branches settings.git_provider _ _
          (λ q. w.branches_of q owner repo settings (record { name = none })) _ p known
          ((invalidate_cache-IsInvalidated (clients c) (str "branches") (manager_of c s)).branch _)
      ∙ provided)

  answers_repositories :
      (server owner : GoString) (name : Option GoString)
      (x : Reply Float32 (list_repositories server owner name))
      → (get_settings w.cluster c.settings server s.settings).0 ≡ ok settings
      → IsProvided w p settings (list_repositories server owner name) x
      → (handle c w unmarshal
          (list_repositories server owner name)
          (emptied (str "repositories"))).0
        ≡ success 200 x
  unfolding handle CatalogHandler.handle_invalidate CatalogHandler.list_repositories
      RepositoriesService.list_repositories RepositoriesService.multi_list_repositories eq_str
  answers_repositories server owner name x got provided = ap CatalogHandler.answer (
      serve-ok w.cluster c.settings server _ _ settings got
      ∙ dispatch-miss c.repositories settings.git_provider _ _
          (λ q. w.repositories_of q owner settings (record { name = name })) _ p known
          ((invalidate_cache-IsInvalidated (clients c) (str "repositories")
              (manager_of c s)).repository
            _)
      ∙ provided)

  answers_organizations :
      (server : GoString) (x : Reply Float32 (list_user_organizations server))
      → (get_settings w.cluster c.settings server s.settings).0 ≡ ok settings
      → IsProvided w p settings (list_user_organizations server) x
      → (handle c w unmarshal (list_user_organizations server) (emptied (str "organizations"))).0
        ≡ success 200 x
  unfolding handle CatalogHandler.handle_invalidate CatalogHandler.list_user_organizations
      OrganizationsService.list_organizations OrganizationsService.multi_list_organizations eq_str
  answers_organizations server x got provided = ap CatalogHandler.answer (
      serve-ok w.cluster c.settings server _ _ settings got
      ∙ dispatch-miss c.organizations settings.git_provider _ _ (λ q. w.organizations_of q settings)
          _ p known
          ((invalidate_cache-IsInvalidated (clients c) (str "organizations")
              (manager_of c s)).organization
            _)
      ∙ provided)

  answers_pull_requests :
      (q : PullRequestHandler.ListParams) (x : Reply Float32 (list_pull_requests q))
      → (get_settings w.cluster c.settings q.git_server s.settings).0 ≡ ok settings
      → IsProvided w p settings (list_pull_requests q) x
      → (handle c w unmarshal (list_pull_requests q) (emptied (str "pullrequests"))).0
        ≡ success 200 x
  unfolding handle CatalogHandler.handle_invalidate PullRequestHandler.list_pull_requests
      PullRequestsService.list_pull_requests PullRequestsService.multi_list_pull_requests eq_str
  answers_pull_requests q x got provided = ap PullRequestHandler.answer (
      serve-ok w.cluster c.settings q.git_server _ _ settings got
      ∙ dispatch-miss c.pull_requests settings.git_provider _ _
          (λ z.
            w.pull_requests_of z q.owner q.repo_name settings (PullRequestHandler.list_options q))
          _ p known
          ((invalidate_cache-IsInvalidated (clients c) (str "pullrequests")
              (manager_of c s)).pull_request
            _)
      ∙ provided)

  answers_pipelines :
      (q : PipelineHandler.ListParams) (x : Reply Float32 (list_pipelines q))
      → (get_settings w.cluster c.settings q.git_server s.settings).0 ≡ ok settings
      → IsProvided w p settings (list_pipelines q) x
      → (handle c w unmarshal (list_pipelines q) (emptied (str "pipelines"))).0 ≡ success 200 x
  unfolding handle CatalogHandler.handle_invalidate pipelines_service PipelineHandler.list_pipelines
      PipelinesService.list_pipelines Pipelines.multi_list_pipelines eq_str
  answers_pipelines q x got provided = ap (PipelineHandler.answer 200 (λ r. r)) (
      serve-ok w.cluster c.settings q.git_server _ _ settings got
      ∙ dispatch-miss c.pipelines.pipelines settings.git_provider _ _
          (λ z. w.pipelines.list_of z q.project settings (PipelineHandler.list_options q)) _ p known
          ((invalidate_cache-IsInvalidated (clients c) (str "pipelines") (manager_of c s)).pipeline
            _)
      ∙ provided)

  answers_pipeline_jobs :
      (q : PipelineHandler.IdParams) (x : Reply Float32 (list_pipeline_jobs q))
      → (get_settings w.cluster c.settings q.git_server s.settings).0 ≡ ok settings
      → IsProvided w p settings (list_pipeline_jobs q) x
      → (handle c w unmarshal (list_pipeline_jobs q) (emptied (str "pipelines"))).0 ≡ success 200 x
  unfolding handle CatalogHandler.handle_invalidate pipelines_service
      PipelineHandler.list_pipeline_jobs PipelinesService.list_pipeline_jobs eq_str
  answers_pipeline_jobs q x got (id, number, lists, provided) =
      rw (number, PipelineHandler.list_pipeline_jobs)
        (ap (PipelineHandler.answer 200 (λ r. r)) (
          serve-ok w.cluster c.settings q.git_server _ _ settings got
          ∙ multi_list_jobs-miss c.pipelines w.pipelines q.project id settings _ p lists (
              (invalidate_cache-IsInvalidated (clients c) (str "pipelines")
                  (manager_of c s)).pipeline_jobs
                _)
          ∙ provided))

  -- If the settings of the server can be had, name a known provider, and that provider has an answer to a
  -- request for a list (of repositories, organizations, branches, pull requests, pipelines or, where the
  -- pipeline's id is a number and the provider lists jobs, of a pipeline's jobs), then after an
  -- invalidation of the request's endpoint the reply is 200 with that answer, whatever the caches held
  -- before.
  pub invalidate_cache-answers :
      (r : Request) (x : Reply Float32 r)
      → (get_settings w.cluster c.settings (server_of r) s.settings).0 ≡ ok settings
      → IsProvided w p settings r x
      → (handle c w unmarshal r (handle c v unmarshal (invalidate_cache (endpoint_of r)) s).1).0
        ≡ success 200 x
  invalidate_cache-answers (get_repository server owner repo) x got provided = absurd provided
  invalidate_cache-answers (list_repositories server owner name) x got provided =
      answers_repositories server owner name x got provided
  invalidate_cache-answers (list_user_organizations server) x got provided =
      answers_organizations server x got provided
  invalidate_cache-answers (list_branches server owner repo) x got provided =
      answers_branches server owner repo x got provided
  invalidate_cache-answers (list_pull_requests q) x got provided =
      answers_pull_requests q x got provided
  invalidate_cache-answers (trigger_pipeline q) x got provided = absurd provided
  invalidate_cache-answers (list_pipelines q) x got provided = answers_pipelines q x got provided
  invalidate_cache-answers (list_pipeline_jobs q) x got provided =
      answers_pipeline_jobs q x got provided
  invalidate_cache-answers (get_pipeline_job_trace q) x got provided = absurd provided
  invalidate_cache-answers (invalidate_cache endpoint) x got provided = absurd provided
