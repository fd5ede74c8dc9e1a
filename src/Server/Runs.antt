-- ===== src/Server/Runs.antt =====
-- Runs of the program of internal/api/server.go: requests one after another, each in the world of its
-- time, and entries that the caches drop in between.
use gitfusion.Prelude.{◌≡◌, List, [], ◌∷◌, GoString, All}
use gitfusion.GoError.{Result}
use gitfusion.Models.{PipelineVariable}
use gitfusion.Cache.Client.{FetchingClient}
use gitfusion.Services.Cached.{IsFaithful}
use gitfusion.Server.Types.{
  World, Caches, App, Request, get_repository, list_repositories, list_user_organizations,
  list_branches, list_pull_requests, trigger_pipeline, list_pipelines, list_pipeline_jobs,
  get_pipeline_job_trace, invalidate_cache,
}
use gitfusion.Server.Handle.{handle}
use gitfusion.Server.Claims.{Claims, IsTruthful}
use gitfusion.Server.Sound.{IsSoundApp}
use gitfusion.Server.Lists.{
  handle-list_repositories, handle-list_user_organizations, handle-list_branches,
  handle-list_pull_requests, handle-list_pipelines,
}
use gitfusion.Server.Handled.{IsHandled}
use gitfusion.Server.Jobs.{handle-list_pipeline_jobs, handle-get_pipeline_job_trace}
use gitfusion.Server.Single.{
  handle-get_repository, handle-trigger_pipeline, handle-invalidate_cache,
}

module _ {Float32 : Type 0} (c : Caches Float32)
    (unmarshal : GoString → Result (List PipelineVariable)) where
  module _ (a : Claims Float32) (w : World Float32) (t : IsTruthful c.pipelines a w) (s : App c)
      (h : IsSoundApp c a s) where
    -- If the claims hold of what the providers return, and of the caches, then after any request they
    -- hold of the caches, and of its reply if the request has no `|`.
    pub handle-IsHandled : (r : Request) → IsHandled c a unmarshal r (handle c w unmarshal r s)
    handle-IsHandled (get_repository server owner repo) =
        handle-get_repository c a w t s h unmarshal server owner repo
    handle-IsHandled (list_repositories server owner name) =
        handle-list_repositories c a unmarshal w t s h server owner name
    handle-IsHandled (list_user_organizations server) =
        handle-list_user_organizations c a unmarshal w t s h server
    handle-IsHandled (list_branches server owner repo) =
        handle-list_branches c a unmarshal w t s h server owner repo
    handle-IsHandled (list_pull_requests q) = handle-list_pull_requests c a unmarshal w t s h q
    handle-IsHandled (trigger_pipeline q) = handle-trigger_pipeline c a w t s h unmarshal q
    handle-IsHandled (list_pipelines q) = handle-list_pipelines c a unmarshal w t s h q
    handle-IsHandled (list_pipeline_jobs q) = handle-list_pipeline_jobs c a w t s h unmarshal q
    handle-IsHandled (get_pipeline_job_trace q) =
        handle-get_pipeline_job_trace c a w t s h unmarshal q
    handle-IsHandled (invalidate_cache endpoint) =
        handle-invalidate_cache c a w t s h unmarshal endpoint

  -- Every cache may drop entries between requests.
  unfoldable pub sweep_all : App c → App c
  sweep_all s = record {
    settings = c.settings.client.sweep s.settings;
    repositories = c.repositories.client.sweep s.repositories;
    organizations = c.organizations.client.sweep s.organizations;
    branches = c.branches.client.sweep s.branches;
    pull_requests = c.pull_requests.client.sweep s.pull_requests;
    pipelines = record {
      pipelines = c.pipelines.pipelines.client.sweep s.pipelines.pipelines;
      jobs = c.pipelines.jobs.client.sweep s.pipelines.jobs;
      traces = record {
        live = c.pipelines.traces.sweep s.pipelines.traces.live;
        done = c.pipelines.traces.sweep s.pipelines.traces.done;
      };
      terminal_jobs = c.pipelines.terminal_jobs.sweep s.pipelines.terminal_jobs;
    };
  }

  -- The states that the program can be in, after the worlds it has seen, the last one first.
  pub data IsReachable (start : App c) : List (World Float32) → App c → Type 1 where
    started : IsReachable start [] start
    handled :
        (ws : List (World Float32)) (s : App c) (w : World Float32) (r : Request)
        → IsReachable start ws s
        → IsReachable start (w ∷ ws) (handle c w unmarshal r s).1
    swept :
        (ws : List (World Float32)) (s : App c)
        → IsReachable start ws s
        → IsReachable start ws (sweep_all s)

  module _ (a : Claims Float32) where
    swept-IsFaithful :
        {V Req : Type 0} (f : FetchingClient V) (key : Req → GoString) (IsPlain : Req → Type 0)
        (Answers : Req → V → Type 0) (separates : (r q : Req) → IsPlain r → key r ≡ key q → r ≡ q)
        (s : f.client.Store)
        → IsFaithful f key IsPlain Answers separates s
        → IsFaithful f key IsPlain Answers separates (f.client.sweep s)
    swept-IsFaithful f key IsPlain Answers separates s h = record {
      entry = λ r v p found. h.entry r v p (f.client.get_sweep (key r) v s found);
    }

    sweep_all-IsSoundApp : (s : App c) → IsSoundApp c a s → IsSoundApp c a (sweep_all s)
    unfolding sweep_all
    sweep_all-IsSoundApp s h = record {
      settings = λ server v found.
          h.settings server v (c.settings.client.get_sweep server v s.settings found);
      repositories =
          swept-IsFaithful c.repositories _ _ a.repositories _ s.repositories h.repositories;
      organizations =
          swept-IsFaithful c.organizations _ _ a.organizations _ s.organizations h.organizations;
      branches = swept-IsFaithful c.branches _ _ a.branches _ s.branches h.branches;
      pull_requests =
          swept-IsFaithful c.pull_requests _ _ a.pull_requests _ s.pull_requests h.pull_requests;
      pipelines =
          swept-IsFaithful c.pipelines.pipelines _ _ a.pipelines _ s.pipelines.pipelines
            h.pipelines;
      jobs = swept-IsFaithful c.pipelines.jobs _ _ a.jobs _ s.pipelines.jobs h.jobs;
      traces = record {
        live = λ k x found.
            h.traces.live k x (c.pipelines.traces.get_sweep k x s.pipelines.traces.live found);
        done = λ k x found.
            h.traces.done k x (c.pipelines.traces.get_sweep k x s.pipelines.traces.done found);
        finished = λ r x plain found.
            h.traces.finished r x plain
              (c.pipelines.traces.get_sweep _ x s.pipelines.traces.done found);
        marked = λ server id b p found.
            h.traces.marked server id b p
              (c.pipelines.terminal_jobs.get_sweep _ b s.pipelines.terminal_jobs found);
      };
    }

    -- If the claims hold of what the providers return in each world of a run, and of the caches at the
    -- start, they hold of the caches in every state that is reached.
    pub IsReachable-IsSoundApp :
        (start : App c) (ws : List (World Float32)) (s : App c)
        → IsSoundApp c a start
        → All (IsTruthful c.pipelines a) ws
        → IsReachable start ws s
        → IsSoundApp c a s
    IsReachable-IsSoundApp start ws s h t started = h
    IsReachable-IsSoundApp start ws s h t (handled ws' s' w r before) =
        (handle-IsHandled a w t.0 s' (IsReachable-IsSoundApp start ws' s' h t.1 before) r).state
    IsReachable-IsSoundApp start ws s h t (swept ws' s' before) =
        sweep_all-IsSoundApp s' (IsReachable-IsSoundApp start ws' s' h t before)
