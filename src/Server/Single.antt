-- ===== src/Server/Single.antt =====
-- The requests to internal/api/server.go that read no cache of answers, and those that empty the caches.
use mathlib.Core.Path.{subst}
use gitfusion.Prelude.{
  ℕ, ◌≡◌, sym, ◌∙◌, Bool, true, false, Option, none, some, inl, inr, List, GoString, nat_eq,
  string_eq, arith, if◌then◌else◌,
}
use gitfusion.GoError.{Result, ok, err}
use gitfusion.Models.{Repository, PipelineVariable}
use gitfusion.Cache.Client.{FetchingClient}
use gitfusion.Cache.Clear.{get-clear}
use gitfusion.Cache.Terminal.{Tiers, terminal_invalidate}
use gitfusion.Cache.Manager.{JobTrace, Manager}
use gitfusion.Cache.Manager.Laws.{invalidate_cache-IsInvalidated, invalidate_cache-tiers}
use gitfusion.Cache.Manager
use gitfusion.Services.Cached.{IsFaithful}
use gitfusion.Services.Krci.{get_settings, get_settings-IsUsableCache}
use gitfusion.Services.Repositories.{get_repository-Answers}
use gitfusion.Services.Repositories as RepositoriesService
use gitfusion.Services.Pipelines.Service.{trigger_pipeline-Answers}
use gitfusion.Services.Pipelines.Service as PipelinesService
use gitfusion.Api.Responses.{success, repository_error, numbered}
use gitfusion.Api.Outcomes.{answer-eq-success, numbered-not-success, trigger_pipeline-outcome}
use gitfusion.Api.Catalog as CatalogHandler
use gitfusion.Api.Pipelines as PipelineHandler
use gitfusion.Server.Types.{World, Caches, App, get_repository, trigger_pipeline, invalidate_cache}
use gitfusion.Server.Handle.{handle, pipelines_service, clients, manager_of}
use gitfusion.Server.Claims.{Claims, IsTruthful}
use gitfusion.Server.Sound.{IsSoundApp}
use gitfusion.Server.Handled.{usable, sound_settings, IsHandled}

repository_answer :
    (r : Result Repository) (n : ℕ) (v : Repository)
    → CatalogHandler.repository_answer r ≡ success n v
    → r ≡ ok v
unfolding repository_error
repository_answer (ok a) n v e = ground (arith, e)
repository_answer (err x) n v e = absurd (ground (arith, e))

gone : {V : Type 0} {o : Option V} (v : V) → o ≡ none → o ≡ some v → ⊥
gone v e f = ground (arith, sym e ∙ f)

-- A store that finds no more than another is as faithful.
fewer-IsFaithful :
    {V Req : Type 0} (f : FetchingClient V) (key : Req → GoString) (IsPlain : Req → Type 0)
    (Answers : Req → V → Type 0) (separates : (r q : Req) → IsPlain r → key r ≡ key q → r ≡ q)
    (b : Bool) (s t : f.client.Store)
    → ((k : GoString) → f.client.get k t ≡ (if b then none else f.client.get k s))
    → IsFaithful f key IsPlain Answers separates s
    → IsFaithful f key IsPlain Answers separates t
fewer-IsFaithful f key IsPlain Answers separates true s t h k = record {
  entry = λ r v p found. absurd (ground (arith, sym (h (key r)) ∙ found));
}
fewer-IsFaithful f key IsPlain Answers separates false s t h k = record {
  entry = λ r v p found. k.entry r v p (sym (h (key r)) ∙ found);
}

module _ {Float32 : Type 0} (c : Caches Float32) (a : Claims Float32) where
  module _ (w : World Float32) (t : IsTruthful c.pipelines a w) (s : App c) (h : IsSoundApp c a s)
      (unmarshal : GoString → Result (List PipelineVariable)) where
    -- The settings of a server may be fetched into their cache.
    fetched_settings :
        (server : GoString)
        → IsSoundApp c a
            (record s { settings = (get_settings w.cluster c.settings server s.settings).1 })
    fetched_settings server = record {
      settings = sound_settings w.cluster c.settings _ (
          get_settings-IsUsableCache w.cluster c.settings server s.settings
            (usable w.cluster c.settings s.settings h.settings));
      repositories = h.repositories;
      organizations = h.organizations;
      branches = h.branches;
      pull_requests = h.pull_requests;
      pipelines = h.pipelines;
      jobs = h.jobs;
      traces = h.traces;
    }

    pub handle-get_repository :
        (server owner repo : GoString)
        → IsHandled c a unmarshal
            (get_repository server owner repo)
            (handle c w unmarshal (get_repository server owner repo) s)
    unfolding handle CatalogHandler.get_repository RepositoriesService.get_repository
    handle-get_repository server owner repo = record {
      state = fetched_settings server;
      reply = λ n v plain e.
          get_repository-Answers w.repository_of w.repositories_of w.cluster c.settings
            c.repositories a.repository t.repository server owner repo s.settings v
            (usable w.cluster c.settings s.settings h.settings) (repository_answer _ n v e);
    }

    module _ (q : PipelineHandler.TriggerParams) where
      refused :
          (text : GoString) → IsHandled c a unmarshal (trigger_pipeline q) (numbered 400 text, s)
      refused text = record {
        state = h;
        reply = λ n v plain e. absurd (numbered-not-success 400 text n v e);
      }

      served :
          (variables : List PipelineVariable)
          → PipelineHandler.parse_variables unmarshal q.variables ≡ ok variables
          → (let out = (pipelines_service c w).trigger q.git_server q.project q.ref variables s in
              IsHandled c a unmarshal
                (trigger_pipeline q)
                (PipelineHandler.answer 201 (λ r. r) out.0, out.1))
      unfolding pipelines_service PipelinesService.trigger_pipeline
      served variables read = record {
        state = fetched_settings q.git_server;
        reply = λ n v plain e.
            let (x, same, here) = answer-eq-success 201 (λ r. r) _ n v e in
            (
              variables,
              read,
              subst (a.triggered q.git_server q.project q.ref variables) (sym here) (
                  trigger_pipeline-Answers c.pipelines w.pipelines w.cluster c.settings a.triggered
                    t.triggered q.git_server q.project q.ref variables s.settings x
                    (usable w.cluster c.settings s.settings h.settings) same),
            );
      }

      pub handle-trigger_pipeline :
          IsHandled c a unmarshal (trigger_pipeline q) (handle c w unmarshal (trigger_pipeline q) s)
      unfolding handle
      handle-trigger_pipeline =
          elim (trigger_pipeline-outcome unmarshal (pipelines_service c w) q s) [
            | inl (text, e) ↦
                subst (IsHandled c a unmarshal (trigger_pipeline q)) (sym e) (refused text)
            | inr (variables, read, e) ↦
                subst (IsHandled c a unmarshal (trigger_pipeline q)) (sym e) (served variables read)
          ]

    -- What is found in the live or the done tier of the traces was found there before.
    unfoldable pub IsFewer : Tiers c.pipelines.traces → Type 0
    IsFewer tiers =
        ((k : GoString) (x : JobTrace)
          → c.pipelines.traces.get k tiers.live ≡ some x
          → c.pipelines.traces.get k s.pipelines.traces.live ≡ some x)
        × ((k : GoString) (x : JobTrace)
            → c.pipelines.traces.get k tiers.done ≡ some x
            → c.pipelines.traces.get k s.pipelines.traces.done ≡ some x)

    pub invalidate_cache-IsFewer :
        (endpoint : GoString)
        → IsFewer
            (gitfusion.Cache.Manager.invalidate_cache
              (clients c)
              endpoint
              (manager_of c s)).1.job_trace
    unfolding IsFewer terminal_invalidate
    invalidate_cache-IsFewer endpoint =
        elim (invalidate_cache-tiers (clients c) endpoint (manager_of c s)) [
          | inl same ↦ subst IsFewer (sym same) ((λ k x found. found), (λ k x found. found))
          | inr emptied ↦ subst IsFewer (sym emptied) (
            (λ k x found.
                absurd (gone x (get-clear c.pipelines.traces k s.pipelines.traces.live) found)),
            (λ k x found.
                absurd (gone x (get-clear c.pipelines.traces k s.pipelines.traces.done) found)),
          )
        ]

    pub handle-invalidate_cache :
        (endpoint : GoString)
        → IsHandled c a unmarshal
            (invalidate_cache endpoint)
            (handle c w unmarshal (invalidate_cache endpoint) s)
    unfolding handle CatalogHandler.handle_invalidate IsFewer
    handle-invalidate_cache endpoint =
        let i = invalidate_cache-IsInvalidated (clients c) endpoint (manager_of c s) in
        let (live, done) = invalidate_cache-IsFewer endpoint in
        record {
          state = record {
            settings = h.settings;
            repositories =
                fewer-IsFaithful c.repositories _ _ a.repositories _ _ _ _ i.repository
                  h.repositories;
            organizations =
                fewer-IsFaithful c.organizations _ _ a.organizations _ _ _ _ i.organization
                  h.organizations;
            branches = fewer-IsFaithful c.branches _ _ a.branches _ _ _ _ i.branch h.branches;
            pull_requests =
                fewer-IsFaithful c.pull_requests _ _ a.pull_requests _ _ _ _ i.pull_request
                  h.pull_requests;
            pipelines =
                fewer-IsFaithful c.pipelines.pipelines _ _ a.pipelines _ _ _ _ i.pipeline
                  h.pipelines;
            jobs = fewer-IsFaithful c.pipelines.jobs _ _ a.jobs _ _ _ _ i.pipeline_jobs h.jobs;
            traces = record {
              live = λ k x found. h.traces.live k x (live k x found);
              done = λ k x found. h.traces.done k x (done k x found);
              finished = λ r x plain found. h.traces.finished r x plain (done _ x found);
              marked = h.traces.marked;
            };
          };
          reply = λ n v plain e. tt;
        }
