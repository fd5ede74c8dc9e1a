-- ===== src/Server/Lists.antt =====
-- The list requests to internal/api/server.go.
use gitfusion.Prelude.{ℕ, ◌≡◌, refl, Option, none, some, List, [], ◌∷◌, GoString, arith, count}
use gitfusion.GoError.{Result, ok, err}
use gitfusion.Common.{value_or_empty}
use gitfusion.Models.{PullRequestsResponse, PipelinesResponse, PipelineVariable}
use gitfusion.Services.Keys.{NoBar}
use gitfusion.Services.Repositories.{list_repositories-IsServed}
use gitfusion.Services.Organizations.{list_organizations-IsServed}
use gitfusion.Services.Branches.{list_branches-IsServed}
use gitfusion.Services.PullRequests.{list_pull_requests-IsServed}
use gitfusion.Services.Pipelines.Service.{list_pipelines-IsServed}
use gitfusion.Api.Responses.{success, pull_request_error, pipeline_error}
use gitfusion.Api.Catalog as CatalogHandler
use gitfusion.Api.PullRequests as PullRequestHandler
use gitfusion.Api.Pipelines as PipelineHandler
use gitfusion.Server.Types.{
  World, Caches, App, list_repositories, list_user_organizations, list_branches, list_pull_requests,
  list_pipelines,
}
use gitfusion.Server.Handle.{handle, pipelines_service}
use gitfusion.Server.Claims.{Claims, IsTruthful}
use gitfusion.Server.Sound.{IsSoundApp}
use gitfusion.Server.Handled.{number_plain, usable, sound_settings, IsHandled}

-- A handler gives a success only with its service's value.
catalog_answer :
    {A : Type 0} (r : Result A) (n : ℕ) (v : A) → CatalogHandler.answer r ≡ success n v → r ≡ ok v
catalog_answer (ok a) n v e = ground (arith, e)
catalog_answer (err x) n v e = absurd (ground (arith, e))

pull_request_answer :
    (r : Result PullRequestsResponse) (n : ℕ) (v : PullRequestsResponse)
    → PullRequestHandler.answer r ≡ success n v
    → r ≡ ok v
unfolding pull_request_error
pull_request_answer (ok a) n v e = ground (arith, e)
pull_request_answer (err x) n v e = absurd (ground (arith, e))

pipeline_answer :
    (r : Result PipelinesResponse) (n : ℕ) (v : PipelinesResponse)
    → PipelineHandler.answer 200 (λ p. p) r ≡ success n v
    → r ≡ ok v
unfolding pipeline_error
pipeline_answer (ok a) n v e = ground (arith, e)
pipeline_answer (err x) n v e = absurd (ground (arith, e))

ref_plain :
    (ref : Option GoString)
    → NoBar (value_or_empty ref)
    → NoBar (value_or_empty (PipelineHandler.nonempty_ref ref))
unfolding PipelineHandler.nonempty_ref
ref_plain none h = h
ref_plain (some []) h = h
ref_plain (some (c ∷ s)) h = h

module _ {Float32 : Type 0} (c : Caches Float32) (a : Claims Float32)
    (unmarshal : GoString → Result (List PipelineVariable)) where
  module _ (w : World Float32) (t : IsTruthful c.pipelines a w) (s : App c)
      (h : IsSoundApp c a s) where
    pub handle-list_repositories :
        (server owner : GoString) (name : Option GoString)
        → IsHandled c a unmarshal
            (list_repositories server owner name)
            (handle c w unmarshal (list_repositories server owner name) s)
    unfolding handle CatalogHandler.list_repositories
    handle-list_repositories server owner name =
        let i =
          list_repositories-IsServed w.repository_of w.repositories_of w.cluster c.settings
            c.repositories a.repositories t.repositories server owner (record { name = name })
            (record { settings = s.settings; cache = s.repositories })
            (record {
              settings = usable w.cluster c.settings s.settings h.settings;
              cache = h.repositories;
            }) in
        record {
          state = record {
            settings = sound_settings w.cluster c.settings _ i.state.settings;
            repositories = i.state.cache;
            organizations = h.organizations;
            branches = h.branches;
            pull_requests = h.pull_requests;
            pipelines = h.pipelines;
            jobs = h.jobs;
            traces = h.traces;
          };
          reply = λ n v plain e. i.answer v plain (catalog_answer _ n v e);
        }

    pub handle-list_user_organizations :
        (server : GoString)
        → IsHandled c a unmarshal
            (list_user_organizations server)
            (handle c w unmarshal (list_user_organizations server) s)
    unfolding handle CatalogHandler.list_user_organizations
    handle-list_user_organizations server =
        let i =
          list_organizations-IsServed w.organizations_of w.cluster c.settings c.organizations
            a.organizations t.organizations server
            (record { settings = s.settings; cache = s.organizations })
            (record {
              settings = usable w.cluster c.settings s.settings h.settings;
              cache = h.organizations;
            }) in
        record {
          state = record {
            settings = sound_settings w.cluster c.settings _ i.state.settings;
            repositories = h.repositories;
            organizations = i.state.cache;
            branches = h.branches;
            pull_requests = h.pull_requests;
            pipelines = h.pipelines;
            jobs = h.jobs;
            traces = h.traces;
          };
          reply = λ n v plain e. i.answer v tt (catalog_answer _ n v e);
        }

    pub handle-list_branches :
        (server owner repo : GoString)
        → IsHandled c a unmarshal
            (list_branches server owner repo)
            (handle c w unmarshal (list_branches server owner repo) s)
    unfolding handle CatalogHandler.list_branches count
    handle-list_branches server owner repo =
        let i =
          list_branches-IsServed w.branches_of w.cluster c.settings c.branches a.branches t.branches
            server owner repo (record { name = none })
            (record { settings = s.settings; cache = s.branches })
            (record {
              settings = usable w.cluster c.settings s.settings h.settings;
              cache = h.branches;
            }) in
        record {
          state = record {
            settings = sound_settings w.cluster c.settings _ i.state.settings;
            repositories = h.repositories;
            organizations = h.organizations;
            branches = i.state.cache;
            pull_requests = h.pull_requests;
            pipelines = h.pipelines;
            jobs = h.jobs;
            traces = h.traces;
          };
          reply = λ n v plain e.
              i.answer v (plain.0, (plain.1.0, (plain.1.1.0, (refl, tt)))) (catalog_answer _ n v e);
        }

    pub handle-list_pull_requests :
        (q : PullRequestHandler.ListParams)
        → IsHandled c a unmarshal
            (list_pull_requests q)
            (handle c w unmarshal (list_pull_requests q) s)
    unfolding handle PullRequestHandler.list_pull_requests PullRequestHandler.list_options
    handle-list_pull_requests q =
        let i =
          list_pull_requests-IsServed w.pull_requests_of w.cluster c.settings c.pull_requests
            a.pull_requests t.pull_requests q.git_server q.owner q.repo_name
            (PullRequestHandler.list_options q)
            (record { settings = s.settings; cache = s.pull_requests })
            (record {
              settings = usable w.cluster c.settings s.settings h.settings;
              cache = h.pull_requests;
            }) in
        record {
          state = record {
            settings = sound_settings w.cluster c.settings _ i.state.settings;
            repositories = h.repositories;
            organizations = h.organizations;
            branches = h.branches;
            pull_requests = i.state.cache;
            pipelines = h.pipelines;
            jobs = h.jobs;
            traces = h.traces;
          };
          reply = λ n v plain e.
              i.answer v
                (
                  plain.0,
                  (
                    plain.1.0,
                    (
                      plain.1.1.0,
                      (
                        plain.1.1.1.0,
                        (
                          number_plain (PullRequestHandler.list_options q).page,
                          (number_plain (PullRequestHandler.list_options q).per_page, tt),
                        ),
                      ),
                    ),
                  ),
                )
                (pull_request_answer _ n v e);
        }

    pub handle-list_pipelines :
        (q : PipelineHandler.ListParams)
        → IsHandled c a unmarshal (list_pipelines q) (handle c w unmarshal (list_pipelines q) s)
    unfolding handle pipelines_service PipelineHandler.list_pipelines PipelineHandler.list_options
    handle-list_pipelines q =
        let i =
          list_pipelines-IsServed c.pipelines w.pipelines w.cluster c.settings a.pipelines
            t.pipelines q.git_server q.project (PipelineHandler.list_options q)
            (record { settings = s.settings; cache = s.pipelines.pipelines })
            (record {
              settings = usable w.cluster c.settings s.settings h.settings;
              cache = h.pipelines;
            }) in
        record {
          state = record {
            settings = sound_settings w.cluster c.settings _ i.state.settings;
            repositories = h.repositories;
            organizations = h.organizations;
            branches = h.branches;
            pull_requests = h.pull_requests;
            pipelines = i.state.cache;
            jobs = h.jobs;
            traces = record {
              live = h.traces.live;
              done = h.traces.done;
              finished = h.traces.finished;
              marked = h.traces.marked;
            };
          };
          reply = λ n v plain e.
              i.answer v
                (
                  plain.0,
                  (
                    plain.1.0,
                    (
                      ref_plain q.ref plain.1.1.0,
                      (
                        plain.1.1.1.0,
                        (
                          number_plain (PipelineHandler.list_options q).page,
                          (number_plain (PipelineHandler.list_options q).per_page, tt),
                        ),
                      ),
                    ),
                  ),
                )
                (pipeline_answer _ n v e);
        }
