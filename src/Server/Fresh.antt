-- ===== src/Server/Fresh.antt =====
-- The first request to internal/api/server.go after an invalidation, against the providers' answers.
use gitfusion.Prelude.{
  ℕ, ◌⊎◌, ◌≡◌, sym, ◌∙◌, Bool, true, false, Option, none, some, inl, inr, List, [], ◌∷◌, GoString,
  str, ◌==◌, nat_eq, string_eq, eq_str, All, arith, if◌then◌else◌,
}
use gitfusion.GoError.{Result}
use gitfusion.Models.{PipelineVariable}
use gitfusion.Cache.Client.{CacheClient, FetchingClient}
use gitfusion.Cache.Terminal.{Tiers, terminal_get}
use gitfusion.Cache.Manager.Laws.{invalidate_cache-IsInvalidated}
use gitfusion.Services.Keys.{NoBar}
use gitfusion.Services.Cached.{IsFaithful}
use gitfusion.Services.PipelineTypes.{PipelineClients}
use gitfusion.Api.Responses.{success}
use gitfusion.Api.Catalog as CatalogHandler
use gitfusion.Server.Types.{
  World, Caches, App, Reply, Request, get_repository, list_repositories, list_user_organizations,
  list_branches, list_pull_requests, trigger_pipeline, list_pipelines, list_pipeline_jobs,
  get_pipeline_job_trace, invalidate_cache,
}
use gitfusion.Server.Handle.{handle, clients, manager_of}
use gitfusion.Server.Claims.{Claims, IsTruthful}
use gitfusion.Server.Sound.{IsSoundApp}
use gitfusion.Server.Replies.{texts, IsReply}
use gitfusion.Server.Single.{IsFewer, invalidate_cache-IsFewer}
use gitfusion.Server.Told.{told, All-truthful}
use gitfusion.Server.Runs.{IsReachable, IsReachable-IsSoundApp, handle-IsHandled}
use gitfusion.Server.Refines.{IsEmptyApp, IsEmptyApp-IsSoundApp}

-- The endpoint whose caches a request reads; the empty text, which is none, if it reads none.
abbrev pub endpoint_of : Request → GoString
endpoint_of (get_repository server owner repo) = []
endpoint_of (list_repositories server owner name) = str "repositories"
endpoint_of (list_user_organizations server) = str "organizations"
endpoint_of (list_branches server owner repo) = str "branches"
endpoint_of (list_pull_requests q) = str "pullrequests"
endpoint_of (trigger_pipeline q) = []
endpoint_of (list_pipelines q) = str "pipelines"
endpoint_of (list_pipeline_jobs q) = str "pipelines"
endpoint_of (get_pipeline_job_trace q) = str "pipelines"
endpoint_of (invalidate_cache endpoint) = []

abbrev Guarded : Bool → Type 0 → Type 0
Guarded true A = A
Guarded false A = Unit

guard : (b : Bool) {A : Type 0} → A → Guarded b A
guard true x = x
guard false x = tt

-- An entry that an invalidation has left is not claimed to be anything.
cleared-IsFaithful :
    {V Req : Type 0} (f : FetchingClient V) (key : Req → GoString) (IsPlain : Req → Type 0)
    (Answers : Req → V → Type 0) (separates : (r q : Req) → IsPlain r → key r ≡ key q → r ≡ q)
    (b : Bool) (s t : f.client.Store)
    → ((k : GoString) → f.client.get k t ≡ (if b then none else f.client.get k s))
    → IsFaithful f key IsPlain (λ r v. Guarded b (Answers r v)) separates t
cleared-IsFaithful f key IsPlain Answers separates true s t h = record {
  entry = λ r v p found. absurd (ground (arith, sym (h (key r)) ∙ found));
}
cleared-IsFaithful f key IsPlain Answers separates false s t h = record {
  entry = λ r v p found. tt;
}

no_trace :
    {V : Type 0} (c : CacheClient V) (b : Bool) (k : GoString) (tiers : Tiers c) (x : V)
    (o : Option V) (A : Type 0)
    → terminal_get c k tiers ≡ (if b then none else o)
    → (c.get k tiers.live ≡ some x) ⊎ (c.get k tiers.done ≡ some x)
    → Guarded b A
unfolding terminal_get
no_trace c true k tiers x o A gone found = absurd (ground (arith, gone, found))
no_trace c false k tiers x o A gone found = tt

All-finished : {A : Type 0} (P : A → Type 0) (l : List A) → All (λ x. P x → Unit {0}) l
All-finished P [] = tt
All-finished P (x ∷ l) = ((λ h. tt), All-finished P l)

module _ {Float32 : Type 0} (endpoint : GoString) (w : World Float32) where
  -- Of the caches of an endpoint, that they hold what the providers return in one world.
  abbrev fresh : Claims Float32
  fresh = record {
    repository = (told (w ∷ [])).repository;
    repositories =
        λ r v. Guarded (endpoint == str "repositories") ((told (w ∷ [])).repositories r v);
    organizations =
        λ r v. Guarded (endpoint == str "organizations") ((told (w ∷ [])).organizations r v);
    branches = λ r v. Guarded (endpoint == str "branches") ((told (w ∷ [])).branches r v);
    pull_requests =
        λ r v. Guarded (endpoint == str "pullrequests") ((told (w ∷ [])).pull_requests r v);
    triggered = (told (w ∷ [])).triggered;
    pipelines = λ r v. Guarded (endpoint == str "pipelines") ((told (w ∷ [])).pipelines r v);
    jobs = λ r v. Guarded (endpoint == str "pipelines") ((told (w ∷ [])).jobs r v);
    traces = λ r v. Guarded (endpoint == str "pipelines") ((told (w ∷ [])).traces r v);
    finished = λ server id. Unit {0};
  }

  fresh_truthful : (c : PipelineClients Float32) → IsTruthful c fresh w
  fresh_truthful c =
      let t = (All-truthful c (w ∷ []) (w ∷ []) (λ P here. here)).0 in
      record {
        repository = t.repository;
        repositories =
            λ p owner settings opts v e. guard _ (t.repositories p owner settings opts v e);
        organizations = λ p settings v e. guard _ (t.organizations p settings v e);
        branches =
            λ p owner repo settings opts v e. guard _ (t.branches p owner repo settings opts v e);
        pull_requests = λ p owner repo settings opts v e.
            guard _ (t.pull_requests p owner repo settings opts v e);
        triggered = t.triggered;
        pipelines =
            λ p project settings opts v e. guard _ (t.pipelines p project settings opts v e);
        jobs = λ p project id settings v e. guard _ (t.jobs p project id settings v e);
        on_jobs = record {
          traces = λ p project id settings content truncated e.
              guard _ (t.on_jobs.traces p project id settings content truncated e);
          jobs = λ p project id settings l e. All-finished _ l;
        };
      }

  module _ (c : Caches Float32) (a : Claims Float32) (v : World Float32)
      (t : IsTruthful c.pipelines a v) (s : App c) (h : IsSoundApp c a s)
      (unmarshal : GoString → Result (List PipelineVariable)) where
    invalidated_app : IsSoundApp c fresh (handle c v unmarshal (invalidate_cache endpoint) s).1
    unfolding handle CatalogHandler.handle_invalidate IsFewer
    invalidated_app =
        let i = invalidate_cache-IsInvalidated (clients c) endpoint (manager_of c s) in
        let (live, done) = invalidate_cache-IsFewer c a v t s h unmarshal endpoint in
        record {
          settings = h.settings;
          repositories = cleared-IsFaithful c.repositories _ _ _ _ _ _ _ i.repository;
          organizations = cleared-IsFaithful c.organizations _ _ _ _ _ _ _ i.organization;
          branches = cleared-IsFaithful c.branches _ _ _ _ _ _ _ i.branch;
          pull_requests = cleared-IsFaithful c.pull_requests _ _ _ _ _ _ _ i.pull_request;
          pipelines = cleared-IsFaithful c.pipelines.pipelines _ _ _ _ _ _ _ i.pipeline;
          jobs = cleared-IsFaithful c.pipelines.jobs _ _ _ _ _ _ _ i.pipeline_jobs;
          traces = record {
            live = λ k x found. record {
              complete = (h.traces.live k x (live k x found)).complete;
              answers = λ r plain same.
                  no_trace c.pipelines.traces (endpoint == str "pipelines") k _ x _ _
                    (i.job_trace k) (inl found);
            };
            done = λ k x found. record {
              complete = (h.traces.done k x (done k x found)).complete;
              answers = λ r plain same.
                  no_trace c.pipelines.traces (endpoint == str "pipelines") k _ x _ _
                    (i.job_trace k) (inr found);
            };
            finished = λ r x plain found. tt;
            marked = λ server id b p found. tt;
          };
        }

-- A guarded claim of a request's own endpoint is the claim.
unguarded :
    {Float32 : Type 0} (w : World Float32) (unmarshal : GoString → Result (List PipelineVariable))
    (r : Request) (v : Reply Float32 r)
    → IsReply (fresh (endpoint_of r) w) unmarshal r v
    → IsReply (told (w ∷ [])) unmarshal r v
unfolding eq_str
unguarded w unmarshal (get_repository server owner repo) v h = h
unguarded w unmarshal (list_repositories server owner name) v h = h
unguarded w unmarshal (list_user_organizations server) v h = h
unguarded w unmarshal (list_branches server owner repo) v h = h
unguarded w unmarshal (list_pull_requests q) v h = h
unguarded w unmarshal (trigger_pipeline q) v h = h
unguarded w unmarshal (list_pipelines q) v h = h
unguarded w unmarshal (list_pipeline_jobs q) v h = h
unguarded w unmarshal (get_pipeline_job_trace q) v h = h
unguarded w unmarshal (invalidate_cache endpoint) v h = tt

module _ {Float32 : Type 0} (c : Caches Float32)
    (unmarshal : GoString → Result (List PipelineVariable)) where
  -- From empty caches, after any requests and evictions and then an invalidation of the endpoint of a
  -- request without `|` in its texts: a successful reply to that request is what some provider's call for
  -- it returned in the world of the request itself.
  pub invalidate_cache-fresh :
      (start : App c) (ws : List (World Float32)) (s : App c) (v w : World Float32) (r : Request)
      (n : ℕ) (x : Reply Float32 r)
      → IsEmptyApp c start
      → IsReachable c unmarshal start ws s
      → All NoBar (texts r)
      → (handle c w unmarshal r (handle c v unmarshal (invalidate_cache (endpoint_of r)) s).1).0
        ≡ success n x
      → IsReply (told (w ∷ [])) unmarshal r x
  invalidate_cache-fresh start ws s v w r n x empty run plain e =
      let truthful = All-truthful c.pipelines (v ∷ ws) (v ∷ ws) (λ P here. here) in
      let before =
        IsReachable-IsSoundApp c unmarshal (told (v ∷ ws)) start ws s
          (IsEmptyApp-IsSoundApp c (told (v ∷ ws)) start empty) truthful.1 run in
      let emptied =
        invalidated_app (endpoint_of r) w c (told (v ∷ ws)) v truthful.0 s before unmarshal in
      unguarded w unmarshal r x (
        (handle-IsHandled c unmarshal (fresh (endpoint_of r) w) w
            (fresh_truthful (endpoint_of r) w c.pipelines) _ emptied r).reply
          n x plain e)
