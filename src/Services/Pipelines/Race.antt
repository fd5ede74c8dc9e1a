-- ===== src/Services/Pipelines/Race.antt =====
-- What one trace request of internal/services/pipelines/pipelines_provider.go writes, and where.
use gitfusion.Prelude.{
  ◌≡◌, ◌≤◌, ◌<◌, ◌⊎◌, refl, Bool, true, false, length, none, some, GoString, arith, ℤ, itoa,
}
use gitfusion.GoError.{ok}
use gitfusion.Models.{GitServerSettings}
use gitfusion.Cache.Terminal.{terminal_get, terminal_set}
use gitfusion.Services.Provider.{Provider}
use gitfusion.Services.PipelineTypes.{
  NumberRequest, number_key, terminal_job_key, PipelineProviders, PipelineClients, PipelineCaches,
  max_cacheable_trace_bytes, jobs_provider,
}
use gitfusion.Services.Pipelines.{
  store_trace, fetched_trace, flight_from, trace_from, trace_with, multi_get_trace,
}

module _ {Float32 : Type 0} (c : PipelineClients Float32) (p : PipelineProviders Float32)
    (project : GoString) (job_id : ℤ) (settings : GitServerSettings) (q : Provider)
    (content : GoString) (during : PipelineCaches c → PipelineCaches c) (s : PipelineCaches c) where
  abbrev request : NumberRequest
  request = record { git_server = settings.git_server_name; project = project; number = job_id }

  multi_get_trace-miss :
      (truncated : Bool)
      → jobs_provider settings.git_provider ≡ ok q
      → terminal_get c.traces (number_key request) s.traces ≡ none
      → p.trace_of q project job_id settings ≡ ok (content, truncated)
      → multi_get_trace c p project job_id settings (λ x. x) during s ≡ (
        ok (record { content = content; truncated = truncated }),
        store_trace c p request (record { content = content; truncated = truncated }) (during s),
      )
  unfolding multi_get_trace
  multi_get_trace-miss truncated supported miss fetched =
      rw (supported, trace_with)
        (rw (miss, trace_from) (rw (miss, flight_from) (rw (fetched, fetched_trace) refl)))

  -- On a miss in both tiers, with no step of another request between the two looks: a trace that is
  -- truncated or larger than the bound is returned as it is, and the request itself writes to no
  -- cache.
  pub multi_get_trace_bypass :
      (truncated : Bool)
      → jobs_provider settings.git_provider ≡ ok q
      → terminal_get c.traces (number_key request) s.traces ≡ none
      → p.trace_of q project job_id settings ≡ ok (content, truncated)
      → (truncated ≡ true) ⊎ (max_cacheable_trace_bytes < length content)
      → multi_get_trace c p project job_id settings (λ x. x) during s
        ≡ (ok (record { content = content; truncated = truncated }), during s)
  unfolding store_trace
  multi_get_trace_bypass truncated supported miss fetched big =
      rw (multi_get_trace-miss truncated supported miss fetched) (ground arith)

  -- On a miss in both tiers, with no step of another request between the two looks: if the job is
  -- not marked as finished before the fetch, and another request marks it during the fetch, then
  -- the complete small trace, which was asked for before the mark, goes to the done tier.
  pub multi_get_trace_late_mark :
      (b : Bool)
      → jobs_provider settings.git_provider ≡ ok q
      → terminal_get c.traces (number_key request) s.traces ≡ none
      → p.trace_of q project job_id settings ≡ ok (content, false)
      → length content ≤ max_cacheable_trace_bytes
      → c.terminal_jobs.get
          (terminal_job_key settings.git_server_name (itoa job_id))
          s.terminal_jobs
        ≡ none
      → c.terminal_jobs.get
          (terminal_job_key settings.git_server_name (itoa job_id))
          (during s).terminal_jobs
        ≡ some b
      → (multi_get_trace c p project job_id settings (λ x. x) during s).1.traces
        ≡ record (during s).traces {
          done =
              c.traces.set
                (number_key request)
                (record { content = content; truncated = false })
                (during s).traces.done;
        }
  unfolding store_trace terminal_set
  multi_get_trace_late_mark b supported miss fetched small running marked =
      rw (multi_get_trace-miss false supported miss fetched) (ground arith)
