-- ===== src/Server/Refines.antt =====
-- internal/api/server.go with its caches, from their empty state on, against a server without any: its
-- replies are the providers' answers.
use gitfusion.Prelude.{ℕ, ◌≡◌, sym, ◌∙◌, none, some, List, ◌∷◌, GoString, All, arith}
use gitfusion.GoError.{Result}
use gitfusion.Models.{PipelineVariable}
use gitfusion.Cache.Client.{CacheClient}
use gitfusion.Services.Keys.{NoBar}
use gitfusion.Api.Responses.{success}
use gitfusion.Server.Types.{World, Caches, App, Reply, Request}
use gitfusion.Server.Handle.{handle}
use gitfusion.Server.Claims.{Claims}
use gitfusion.Server.Sound.{IsSoundApp}
use gitfusion.Server.Replies.{texts, IsReply}
use gitfusion.Server.Told.{told, All-truthful}
use gitfusion.Server.Runs.{IsReachable, IsReachable-IsSoundApp, handle-IsHandled}

abbrev pub IsEmptyStore : {V : Type 0} (c : CacheClient V) → c.Store → Type 0
IsEmptyStore c s = (k : GoString) → c.get k s ≡ none

pub not_found_in :
    {V A : Type 0} (c : CacheClient V) (s : c.Store) (k : GoString) (v : V)
    → IsEmptyStore c s
    → c.get k s ≡ some v
    → A
not_found_in c s k v empty found = absurd (ground (arith, sym (empty k) ∙ found))

module _ {Float32 : Type 0} (c : Caches Float32) where
  -- The caches when the program starts.
  pub record IsEmptyApp (s : App c) : Type 0 where
    pub settings : IsEmptyStore c.settings.client s.settings
    pub repositories : IsEmptyStore c.repositories.client s.repositories
    pub organizations : IsEmptyStore c.organizations.client s.organizations
    pub branches : IsEmptyStore c.branches.client s.branches
    pub pull_requests : IsEmptyStore c.pull_requests.client s.pull_requests
    pub pipelines : IsEmptyStore c.pipelines.pipelines.client s.pipelines.pipelines
    pub jobs : IsEmptyStore c.pipelines.jobs.client s.pipelines.jobs
    pub live : IsEmptyStore c.pipelines.traces s.pipelines.traces.live
    pub done : IsEmptyStore c.pipelines.traces s.pipelines.traces.done
    pub terminal_jobs : IsEmptyStore c.pipelines.terminal_jobs s.pipelines.terminal_jobs

  pub IsEmptyApp-IsSoundApp : (a : Claims Float32) (s : App c) → IsEmptyApp s → IsSoundApp c a s
  IsEmptyApp-IsSoundApp a s h = record {
    settings =
        λ server v found. not_found_in c.settings.client s.settings server v h.settings found;
    repositories = record {
      entry =
          λ r v p found. not_found_in c.repositories.client s.repositories _ v h.repositories found;
    };
    organizations = record {
      entry = λ r v p found.
          not_found_in c.organizations.client s.organizations _ v h.organizations found;
    };
    branches = record {
      entry = λ r v p found. not_found_in c.branches.client s.branches _ v h.branches found;
    };
    pull_requests = record {
      entry = λ r v p found.
          not_found_in c.pull_requests.client s.pull_requests _ v h.pull_requests found;
    };
    pipelines = record {
      entry = λ r v p found.
          not_found_in c.pipelines.pipelines.client s.pipelines.pipelines _ v h.pipelines found;
    };
    jobs = record {
      entry = λ r v p found. not_found_in c.pipelines.jobs.client s.pipelines.jobs _ v h.jobs found;
    };
    traces = record {
      live = λ k t found. not_found_in c.pipelines.traces s.pipelines.traces.live k t h.live found;
      done = λ k t found. not_found_in c.pipelines.traces s.pipelines.traces.done k t h.done found;
      finished =
          λ r t p found. not_found_in c.pipelines.traces s.pipelines.traces.done _ t h.done found;
      marked = λ server id b p found.
          not_found_in c.pipelines.terminal_jobs s.pipelines.terminal_jobs _ b h.terminal_jobs
            found;
    };
  }

  -- From empty caches, after any requests in any worlds and any evictions: a successful reply to a request
  -- without `|` in its texts is what some provider's call for that very request and server returned, now
  -- or in one of the worlds before.
  pub handle-refines :
      (unmarshal : GoString → Result (List PipelineVariable)) (start : App c)
      (ws : List (World Float32)) (s : App c) (w : World Float32) (r : Request) (n : ℕ)
      (v : Reply Float32 r)
      → IsEmptyApp start
      → IsReachable c unmarshal start ws s
      → All NoBar (texts r)
      → (handle c w unmarshal r s).0 ≡ success n v
      → IsReply (told (w ∷ ws)) unmarshal r v
  handle-refines unmarshal start ws s w r n v empty run plain e =
      let truthful = All-truthful c.pipelines (w ∷ ws) (w ∷ ws) (λ P here. here) in
      let before =
        IsReachable-IsSoundApp c unmarshal (told (w ∷ ws)) start ws s
          (IsEmptyApp-IsSoundApp (told (w ∷ ws)) start empty) truthful.1 run in
      (handle-IsHandled c unmarshal (told (w ∷ ws)) w truthful.0 s before r).reply n v plain e
