-- ===== src/Server/Handle.antt =====
-- The requests of internal/api/server.go, one after another, by the handlers and services that
-- `BuildHandler` puts together.
use gitfusion.Prelude.{List, GoString}
use gitfusion.GoError.{Result}
use gitfusion.Models.{PipelineVariable}
use gitfusion.Cache.Manager.{Clients, Manager}
use gitfusion.Services.Dispatch.{ServiceState}
use gitfusion.Services.PipelineTypes.{PipelineCaches}
use gitfusion.Services.Repositories as RepositoriesService
use gitfusion.Services.Organizations as OrganizationsService
use gitfusion.Services.Branches as BranchesService
use gitfusion.Services.PullRequests as PullRequestsService
use gitfusion.Services.Pipelines.Service as PipelinesService
use gitfusion.Api.Responses.{Response}
use gitfusion.Api.Catalog as CatalogHandler
use gitfusion.Api.PullRequests as PullRequestHandler
use gitfusion.Api.Pipelines as PipelineHandler
use gitfusion.Api.Pipelines.{PipelineService}
use gitfusion.Server.Types.{
  World, Caches, App, Reply, Request, get_repository, list_repositories, list_user_organizations,
  list_branches, list_pull_requests, trigger_pipeline, list_pipelines, list_pipeline_jobs,
  get_pipeline_job_trace, invalidate_cache,
}

module _ {Float32 : Type 0} (c : Caches Float32) where
  -- `cache.NewManager` gets the services' caches.
  abbrev pub clients : Clients Float32
  clients = record {
    repository = c.repositories.client;
    organization = c.organizations.client;
    branch = c.branches.client;
    pull_request = c.pull_requests.client;
    pipeline = c.pipelines.pipelines.client;
    pipeline_jobs = c.pipelines.jobs.client;
    job_trace = c.pipelines.traces;
  }

  abbrev pub manager_of : App c → Manager clients
  manager_of s = record {
    repository = s.repositories;
    organization = s.organizations;
    branch = s.branches;
    pull_request = s.pull_requests;
    pipeline = s.pipelines.pipelines;
    pipeline_jobs = s.pipelines.jobs;
    job_trace = s.pipelines.traces;
  }

  -- The manager acts on the services' caches themselves.
  abbrev pub managed : App c → Manager clients → App c
  managed s m = record s {
    repositories = m.repository;
    organizations = m.organization;
    branches = m.branch;
    pull_requests = m.pull_request;
    pipelines = record {
      pipelines = m.pipeline;
      jobs = m.pipeline_jobs;
      traces = m.job_trace;
      terminal_jobs = s.pipelines.terminal_jobs;
    };
  }

  -- Each service acts on the cache of settings, which all share, and on its own.
  abbrev pub on_repositories :
      {R : Type 0}
      → (ServiceState c.settings c.repositories.client.Store
          → R × ServiceState c.settings c.repositories.client.Store)
      → App c
      → R × App c
  on_repositories f s =
      let out = f (record { settings = s.settings; cache = s.repositories }) in
      (out.0, record s { settings = out.1.settings; repositories = out.1.cache })

  abbrev pub on_organizations :
      {R : Type 0}
      → (ServiceState c.settings c.organizations.client.Store
          → R × ServiceState c.settings c.organizations.client.Store)
      → App c
      → R × App c
  on_organizations f s =
      let out = f (record { settings = s.settings; cache = s.organizations }) in
      (out.0, record s { settings = out.1.settings; organizations = out.1.cache })

  abbrev pub on_branches :
      {R : Type 0}
      → (ServiceState c.settings c.branches.client.Store
          → R × ServiceState c.settings c.branches.client.Store)
      → App c
      → R × App c
  on_branches f s =
      let out = f (record { settings = s.settings; cache = s.branches }) in
      (out.0, record s { settings = out.1.settings; branches = out.1.cache })

  abbrev pub on_pull_requests :
      {R : Type 0}
      → (ServiceState c.settings c.pull_requests.client.Store
          → R × ServiceState c.settings c.pull_requests.client.Store)
      → App c
      → R × App c
  on_pull_requests f s =
      let out = f (record { settings = s.settings; cache = s.pull_requests }) in
      (out.0, record s { settings = out.1.settings; pull_requests = out.1.cache })

  abbrev pub on_pipelines :
      {R : Type 0}
      → (ServiceState c.settings (PipelineCaches c.pipelines)
          → R × ServiceState c.settings (PipelineCaches c.pipelines))
      → App c
      → R × App c
  on_pipelines f s =
      let out = f (record { settings = s.settings; cache = s.pipelines }) in
      (out.0, record s { settings = out.1.settings; pipelines = out.1.cache })

  -- The list of pipelines is in one of the caches of the pipeline service.
  abbrev pub on_pipeline_lists :
      {R : Type 0}
      → (ServiceState c.settings c.pipelines.pipelines.client.Store
          → R × ServiceState c.settings c.pipelines.pipelines.client.Store)
      → App c
      → R × App c
  on_pipeline_lists f s =
      let out = f (record { settings = s.settings; cache = s.pipelines.pipelines }) in
      (
        out.0,
        record s {
          settings = out.1.settings;
          pipelines = record s.pipelines { pipelines = out.1.cache };
        },
      )

  abbrev pub on_settings :
      {R : Type 0} → (c.settings.client.Store → R × c.settings.client.Store) → App c → R × App c
  on_settings f s = let out = f s.settings in (out.0, record s { settings = out.1 })

  module _ (w : World Float32) where
    -- The trace request's own steps follow each other, with none of another request between them.
    unfoldable pub pipelines_service : PipelineService Float32 (App c)
    unfolding PipelinesService.trigger_pipeline PipelinesService.list_pipelines
        PipelinesService.list_pipeline_jobs PipelinesService.get_job_trace
    pipelines_service = record {
      trigger = λ server project ref variables. on_settings (
          PipelinesService.trigger_pipeline c.pipelines w.pipelines w.cluster c.settings server
            project ref variables);
      list = λ server project opts. on_pipeline_lists (
          PipelinesService.list_pipelines c.pipelines w.pipelines w.cluster c.settings server
            project opts);
      jobs = λ server project id. on_pipelines (
          PipelinesService.list_pipeline_jobs c.pipelines w.pipelines w.cluster c.settings server
            project id);
      trace = λ server project id. on_pipelines (
          PipelinesService.get_job_trace c.pipelines w.pipelines w.cluster c.settings server project
            id (λ s. s) (λ s. s));
    }

    -- `json.Unmarshal` of the variables of a triggered pipeline is a parameter.
    module _ (unmarshal : GoString → Result (List PipelineVariable)) where
      unfoldable pub handle : (r : Request) → App c → Response (Reply Float32 r) × App c
      unfolding CatalogHandler.get_repository CatalogHandler.list_repositories
          CatalogHandler.list_user_organizations CatalogHandler.list_branches
          CatalogHandler.handle_invalidate PullRequestHandler.list_pull_requests
          PipelineHandler.trigger_pipeline PipelineHandler.list_pipelines
          PipelineHandler.list_pipeline_jobs PipelineHandler.get_pipeline_job_trace
          RepositoriesService.get_repository RepositoriesService.list_repositories
          OrganizationsService.list_organizations BranchesService.list_branches
          PullRequestsService.list_pull_requests pipelines_service
      handle (get_repository server owner repo) =
          CatalogHandler.get_repository
            (λ server owner repo. on_settings (
              RepositoriesService.get_repository w.repository_of w.repositories_of w.cluster
                c.settings c.repositories server owner repo))
            server owner repo
      handle (list_repositories server owner name) =
          CatalogHandler.list_repositories
            (λ server owner opts. on_repositories (
              RepositoriesService.list_repositories w.repository_of w.repositories_of w.cluster
                c.settings c.repositories server owner opts))
            server owner name
      handle (list_user_organizations server) =
          CatalogHandler.list_user_organizations
            (λ server. on_organizations (
              OrganizationsService.list_organizations w.organizations_of w.cluster c.settings
                c.organizations server))
            server
      handle (list_branches server owner repo) =
          CatalogHandler.list_branches
            (λ server owner repo opts. on_branches (
              BranchesService.list_branches w.branches_of w.cluster c.settings c.branches server
                owner repo opts))
            server owner repo
      handle (list_pull_requests q) =
          PullRequestHandler.list_pull_requests
            (λ server owner repo opts. on_pull_requests (
              PullRequestsService.list_pull_requests w.pull_requests_of w.cluster c.settings
                c.pull_requests server owner repo opts))
            q
      handle (trigger_pipeline q) = PipelineHandler.trigger_pipeline unmarshal pipelines_service q
      handle (list_pipelines q) = PipelineHandler.list_pipelines pipelines_service q
      handle (list_pipeline_jobs q) = PipelineHandler.list_pipeline_jobs pipelines_service q
      handle (get_pipeline_job_trace q) = PipelineHandler.get_pipeline_job_trace pipelines_service q
      handle (invalidate_cache endpoint) = λ s.
          let out = CatalogHandler.handle_invalidate clients endpoint (manager_of s) in
          (out.0, managed s out.1)
