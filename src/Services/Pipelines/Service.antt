-- ===== src/Services/Pipelines/Service.antt =====
-- internal/services/pipelines/pipelines_service.go: the settings of the server first, and then the
-- multi-provider service.
use gitfusion.Prelude.{
  ◌≡◌, ◌≢◌, ap, arith, length, List, [], ◌∷◌, ◌++◌, Option, none, some, append_assoc, GoString, All,
  ℤ,
}
use gitfusion.GoError.{Result, ok, ◌>>=◌}
use gitfusion.Models.{
  GitServerSettings, PipelinesResponse, PipelineListOptions, PipelineJob, PipelineResponse,
  PipelineVariable,
}
use gitfusion.Cache.Client.{FetchingClient}
use gitfusion.Cache.Manager.{JobTrace}
use gitfusion.Services.Keys.{NoBar, join_bar}
use gitfusion.Services.Provider.{Provider, provider_of}
use gitfusion.Services.Krci.{Cluster, get_settings, IsUsableCache, get_settings-then}
use gitfusion.Services.Dispatch.{ServiceState, serve, IsSound, IsServed, serve-dispatch-IsServed}
use gitfusion.Services.PipelineTypes.{
  PipelinesRequest, pipelines_fields, pipelines_key, PipelineProviders, PipelineClients,
  PipelineCaches,
}
use gitfusion.Services.Pipelines.{
  multi_trigger, trigger_from, list_request, multi_list_pipelines, multi_list_jobs, multi_get_trace,
}
use gitfusion.Services.Pipelines.Lists.{pipelines_key-injective}

module _ {Float32 : Type 0} (c : PipelineClients Float32) (p : PipelineProviders Float32)
    (k : Cluster) (g : FetchingClient GitServerSettings) where
  unfoldable pub trigger_pipeline :
      GoString
      → GoString
      → GoString
      → List PipelineVariable
      → g.client.Store
      → Result PipelineResponse × g.client.Store
  unfolding multi_trigger
  trigger_pipeline server project ref variables s =
      let got = get_settings k g server s in
      (got.0 >>= multi_trigger c p project ref variables, got.1)

  multi_trigger-eq-ok :
      (project ref : GoString) (variables : List PipelineVariable) (settings : GitServerSettings)
      (v : PipelineResponse)
      → multi_trigger c p project ref variables settings ≡ ok v
      → (q : Provider) × (p.trigger_of q project ref variables settings ≡ ok v)
  unfolding multi_trigger
  multi_trigger-eq-ok project ref variables settings v h =
      from (provider_of settings.git_provider) h
    where
      from :
          (o : Option Provider)
          → trigger_from
              (λ q. p.trigger_of q project ref variables settings)
              settings.git_provider
              o
            ≡ ok v
          → (q : Provider) × (p.trigger_of q project ref variables settings ≡ ok v)
      from none e = absurd (ground arith)
      from (some q) e = (q, e)

  -- A pipeline is triggered by a provider under the settings of the server asked for.
  pub trigger_pipeline-Answers :
      (Answers : GoString → GoString → GoString → List PipelineVariable → PipelineResponse → Type 0)
      → ((q : Provider) (project ref : GoString) (variables : List PipelineVariable)
            (settings : GitServerSettings) (v : PipelineResponse)
          → p.trigger_of q project ref variables settings ≡ ok v
          → Answers settings.git_server_name project ref variables v)
      → (server project ref : GoString) (variables : List PipelineVariable) (s : g.client.Store)
        (v : PipelineResponse)
      → IsUsableCache k g s
      → (trigger_pipeline server project ref variables s).0 ≡ ok v
      → Answers server project ref variables v
  unfolding trigger_pipeline
  trigger_pipeline-Answers Answers truthful server project ref variables s v h e =
      get_settings-then k g (λ n x. Answers n project ref variables x)
        (multi_trigger c p project ref variables)
        (λ settings x made.
          let (q, told) = multi_trigger-eq-ok project ref variables settings x made in
          truthful q project ref variables settings x told)
        server s v h e

  unfoldable pub list_pipelines :
      GoString
      → GoString
      → PipelineListOptions
      → ServiceState g c.pipelines.client.Store
      → Result PipelinesResponse × ServiceState g c.pipelines.client.Store
  unfolding multi_list_pipelines serve
  list_pipelines server project opts s =
      serve k g server (λ settings. multi_list_pipelines c p project settings opts) s

  unfoldable pub list_pipeline_jobs :
      GoString
      → GoString
      → ℤ
      → ServiceState g (PipelineCaches c)
      → Result (List (PipelineJob Float32)) × ServiceState g (PipelineCaches c)
  unfolding multi_list_jobs serve
  list_pipeline_jobs server project pipeline_id s =
      serve k g server (λ settings. multi_list_jobs c p project pipeline_id settings) s

  unfoldable pub get_job_trace :
      GoString
      → GoString
      → ℤ
      → (before during : PipelineCaches c → PipelineCaches c) → ServiceState g (PipelineCaches c)
      → Result JobTrace × ServiceState g (PipelineCaches c)
  unfolding multi_get_trace serve
  get_job_trace server project job_id before during s =
      serve k g server (λ settings. multi_get_trace c p project job_id settings before during) s

  -- `Answers` stands for any property of an answer that follows from a provider having given it.
  module _ (Answers : PipelinesRequest → PipelinesResponse → Type 0)
      (truthful : (q : Provider) (project : GoString) (settings : GitServerSettings)
          (opts : PipelineListOptions) (v : PipelinesResponse)
        → p.list_of q project settings opts ≡ ok v
        → Answers (list_request c p settings.git_server_name project opts) v) where
    pub list_pipelines-IsServed :
        (server project : GoString) (opts : PipelineListOptions)
        (s : ServiceState g c.pipelines.client.Store)
        → IsSound k g c.pipelines pipelines_key
            (λ r. All NoBar (pipelines_fields r))
            Answers
            pipelines_key-injective
            s
        → IsServed k g c.pipelines pipelines_key
            (λ r. All NoBar (pipelines_fields r))
            Answers
            pipelines_key-injective
            (list_request c p server project opts)
            (list_pipelines server project opts s)
    unfolding list_pipelines
    list_pipelines-IsServed server project opts s h =
        serve-dispatch-IsServed k g c.pipelines pipelines_key _ Answers pipelines_key-injective
          server _ (λ n. list_request c p n project opts)
          (λ settings q. p.list_of q project settings opts) s
          (λ settings q v e. truthful q project settings opts v e) h

    -- A state is sound if each cached list is an answer to the requests of its key that have no `|`, and
    -- all cached settings are usable. From a sound state, every list request leaves a sound state.
    pub list_pipelines-IsSound :
        (server project : GoString) (opts : PipelineListOptions)
        (s : ServiceState g c.pipelines.client.Store)
        → IsSound k g c.pipelines pipelines_key
            (λ r. All NoBar (pipelines_fields r))
            Answers
            pipelines_key-injective
            s
        → IsSound k g c.pipelines pipelines_key
            (λ r. All NoBar (pipelines_fields r))
            Answers
            pipelines_key-injective
            (list_pipelines server project opts s).1
    list_pipelines-IsSound server project opts s h =
        (list_pipelines-IsServed server project opts s h).state

    -- From a sound state, pipelines returned for a request whose text fields have no `|`, cached or
    -- fresh, have every property that a provider's answer to that very request has.
    pub list_pipelines-Answers :
        (server project : GoString) (opts : PipelineListOptions)
        (s : ServiceState g c.pipelines.client.Store) (v : PipelinesResponse)
        → IsSound k g c.pipelines pipelines_key
            (λ r. All NoBar (pipelines_fields r))
            Answers
            pipelines_key-injective
            s
        → All NoBar (pipelines_fields (list_request c p server project opts))
        → (list_pipelines server project opts s).0 ≡ ok v
        → Answers (list_request c p server project opts) v
    list_pipelines-Answers server project opts s v h plain e =
        (list_pipelines-IsServed server project opts s h).answer v plain e

different : (s : GoString) → s ≢ b'|' ∷ s
different s e = omega (arith, ap length e)

-- A `|` at the end of a ref reads in the key like one at the start of a status: the two requests
-- differ, and share a cache entry.
pub pipelines_key_collision :
    (r : PipelinesRequest)
    → (record r { ref = r.ref ++ b'|' ∷ []; status = r.status }
        ≢ record r { ref = r.ref; status = b'|' ∷ r.status })
      × (pipelines_key (record r { ref = r.ref ++ b'|' ∷ []; status = r.status })
          ≡ pipelines_key (record r { ref = r.ref; status = b'|' ∷ r.status }))
unfolding pipelines_key join_bar
pipelines_key_collision r =
    (λ e. different r.status (ap (λ (q : PipelinesRequest). q.status) e), simp append_assoc)
