-- ===== src/Services/Pipelines.antt =====
-- internal/services/pipelines/pipelines_provider.go and pipelines_service.go: listing and triggering
-- pipelines, a pipeline's jobs, and the traces of jobs.
pub mod Lists
pub mod Traces
pub mod Requests
pub mod Race
pub mod Service
pub mod Jobs
use gitfusion.Prelude.{
  ℕ, ◌≡◌, refl, Bool, true, false, not, ◌&&◌, leb, length, Option, none, some, List, [], ◌∷◌, ◌++◌,
  GoString, str, All, arith, ℤ, itoa, contains, if◌then◌else◌,
}
use gitfusion.GoError.{GoError, Result, ok, err, wrapped, sentinel, bad_request, ◌>>=◌}
use gitfusion.Models.{
  GitServerSettings, PipelinesResponse, PipelineListOptions, PipelineJob, PipelineResponse,
  PipelineVariable,
}
use gitfusion.Common.{value_or_empty}
use gitfusion.Cache.Client.{CacheClient, FetchingClient}
use gitfusion.Cache.Terminal.{Tiers, terminal_get, terminal_set}
use gitfusion.Cache.Manager.{JobTrace}
use gitfusion.Services.Keys.{join_bar}
use gitfusion.Services.Provider.{Provider, gitlab, github, bitbucket, provider_of}
use gitfusion.Services.Krci.{Cluster, get_settings}
use gitfusion.Services.Dispatch.{dispatch, ServiceState, serve}
use gitfusion.Services.PipelineTypes.{
  max_cacheable_trace_bytes, unsupported_provider, PipelinesRequest, pipelines_fields,
  pipelines_key, NumberRequest, number_fields, number_key, is_terminal_job_status, terminal_job_key,
  jobs_provider, PipelineProviders, PipelineClients, PipelineCaches,
}

abbrev is_found : {A : Type 0} → Option A → Bool
is_found none = false
is_found (some a) = true

trigger_from :
    (Provider → Result PipelineResponse) → GoString → Option Provider → Result PipelineResponse
trigger_from call name none = err (unsupported_provider name)
trigger_from call name (some p) = call p

module _ {Float32 : Type 0} (c : PipelineClients Float32) (p : PipelineProviders Float32) where
  -- `(*MultiProviderPipelineService).TriggerPipeline`
  unfoldable pub multi_trigger :
      GoString → GoString → List PipelineVariable → GitServerSettings → Result PipelineResponse
  unfolding trigger_from unsupported_provider
  multi_trigger project ref variables settings =
      trigger_from (λ q. p.trigger_of q project ref variables settings) settings.git_provider
        (provider_of settings.git_provider)

  abbrev pub list_request : GoString → GoString → PipelineListOptions → PipelinesRequest
  list_request server project opts = record {
    git_server = server;
    project = project;
    ref = value_or_empty opts.ref;
    status = value_or_empty opts.status;
    page = opts.page;
    per_page = opts.per_page;
  }

  -- `(*MultiProviderPipelineService).ListPipelines`
  unfoldable pub multi_list_pipelines :
      GoString
      → GitServerSettings
      → PipelineListOptions
      → c.pipelines.client.Store
      → Result PipelinesResponse × c.pipelines.client.Store
  unfolding dispatch unsupported_provider
  multi_list_pipelines project settings opts s =
      dispatch c.pipelines settings.git_provider (unsupported_provider settings.git_provider)
        (pipelines_key (list_request settings.git_server_name project opts))
        (λ q. p.list_of q project settings opts) s

  -- `markTerminalJobs`
  unfoldable pub mark_terminal_jobs :
      GoString → List (PipelineJob Float32) → c.terminal_jobs.Store → c.terminal_jobs.Store
  unfolding is_terminal_job_status
  mark_terminal_jobs server [] s = s
  mark_terminal_jobs server (job ∷ jobs) s = mark_terminal_jobs server jobs (
      if is_terminal_job_status job.status
      then c.terminal_jobs.set (terminal_job_key server job.id) true s
      else s)

  -- The fetch function of `ListPipelineJobs`, which marks what it has fetched.
  fetch_jobs :
      GoString
      → Result (List (PipelineJob Float32))
      → c.terminal_jobs.Store
      → Result (List (PipelineJob Float32)) × c.terminal_jobs.Store
  unfolding mark_terminal_jobs
  fetch_jobs server (err e) s = (err e, s)
  fetch_jobs server (ok jobs) s = (ok jobs, mark_terminal_jobs server jobs s)

  jobs_with :
      GoString
      → ℤ
      → GitServerSettings
      → Result Provider
      → PipelineCaches c
      → Result (List (PipelineJob Float32)) × PipelineCaches c
  unfolding fetch_jobs
  jobs_with project pipeline_id settings (err e) s = (err e, s)
  jobs_with project pipeline_id settings (ok q) s =
      let out =
        c.jobs.get_or_fetch
          (number_key (record {
            git_server = settings.git_server_name;
            project = project;
            number = pipeline_id;
          }))
          (fetch_jobs settings.git_server_name (p.jobs_of q project pipeline_id settings)) s.jobs
          s.terminal_jobs in
      (out.0, record s { jobs = out.1; terminal_jobs = out.2 })

  -- `(*MultiProviderPipelineService).ListPipelineJobs`
  unfoldable pub multi_list_jobs :
      GoString
      → ℤ
      → GitServerSettings
      → PipelineCaches c
      → Result (List (PipelineJob Float32)) × PipelineCaches c
  unfolding jobs_with jobs_provider
  multi_list_jobs project pipeline_id settings s =
      jobs_with project pipeline_id settings (jobs_provider settings.git_provider) s

  -- What `GetJobTrace` does after the provider has answered: cache a complete, small trace, in the
  -- done tier if the job is marked as finished.
  unfoldable pub store_trace : NumberRequest → JobTrace → PipelineCaches c → PipelineCaches c
  store_trace r trace s =
      if not trace.truncated && leb (length trace.content) max_cacheable_trace_bytes
      then record s {
        traces =
            terminal_set c.traces (number_key r) trace
              (is_found (
                c.terminal_jobs.get (terminal_job_key r.git_server (itoa r.number))
                  s.terminal_jobs))
              s.traces;
      }
      else s

  fetched_trace :
      NumberRequest
      → Result (GoString × Bool)
      → PipelineCaches c
      → Result JobTrace × PipelineCaches c
  unfolding store_trace
  fetched_trace r (err e) s = (err e, s)
  fetched_trace r (ok (content, truncated)) s =
      let trace : JobTrace = record { content = content; truncated = truncated } in
      (ok trace, store_trace r trace s)

  -- The flight: look again, then fetch and store. `during` is what other requests do to the caches
  -- while the fetch runs.
  flight_from :
      NumberRequest
      → Result (GoString × Bool)
      → (PipelineCaches c → PipelineCaches c)
      → Option JobTrace
      → PipelineCaches c
      → Result JobTrace × PipelineCaches c
  unfolding fetched_trace
  flight_from r answer during (some trace) s = (ok trace, s)
  flight_from r answer during none s = fetched_trace r answer (during s)

  -- The first look, and the flight after a miss. `before` is what other requests do in between.
  trace_from :
      NumberRequest
      → Result (GoString × Bool)
      → (before during : PipelineCaches c → PipelineCaches c) → Option JobTrace
      → PipelineCaches c
      → Result JobTrace × PipelineCaches c
  unfolding flight_from
  trace_from r answer before during (some trace) s = (ok trace, s)
  trace_from r answer before during none s =
      flight_from r answer during (terminal_get c.traces (number_key r) (before s).traces)
        (before s)

  trace_with :
      GoString
      → ℤ
      → GitServerSettings
      → (before during : PipelineCaches c → PipelineCaches c) → Result Provider
      → PipelineCaches c
      → Result JobTrace × PipelineCaches c
  unfolding trace_from
  trace_with project job_id settings before during (err e) s = (err e, s)
  trace_with project job_id settings before during (ok q) s =
      let r : NumberRequest = record {
        git_server = settings.git_server_name;
        project = project;
        number = job_id;
      } in
      trace_from r (p.trace_of q project job_id settings) before during
        (terminal_get c.traces (number_key r) s.traces) s

  -- `(*MultiProviderPipelineService).GetJobTrace`, with the steps of other requests between its own.
  unfoldable pub multi_get_trace :
      GoString
      → ℤ
      → GitServerSettings
      → (before during : PipelineCaches c → PipelineCaches c) → PipelineCaches c
      → Result JobTrace × PipelineCaches c
  unfolding trace_with jobs_provider
  multi_get_trace project job_id settings before during s =
      trace_with project job_id settings before during (jobs_provider settings.git_provider) s
