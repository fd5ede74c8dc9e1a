-- ===== src/Services/Pipelines/Requests.antt =====
-- The trace and job requests of internal/services/pipelines/pipelines_provider.go keep the trace
-- caches sound, whatever other sound requests do in between, and answer with the job's own trace.
use mathlib.Core.Path.{subst}
use gitfusion.Prelude.{
  inl, inr, ◌≡◌, refl, ◌∙◌, Bool, true, Option, none, some, List, GoString, All, arith, ℤ,
  Option-cases,
}
use gitfusion.GoError.{Result, ok, err, ok-injective}
use gitfusion.Models.{GitServerSettings, PipelineJob}
use gitfusion.Cache.Terminal.{terminal_get}
use gitfusion.Cache.Manager.{JobTrace}
use gitfusion.Services.Keys.{NoBar}
use gitfusion.Services.Cached.{get_or_fetch-world}
use gitfusion.Services.Provider.{Provider}
use gitfusion.Services.PipelineTypes.{
  NumberRequest, number_fields, number_key, is_terminal_job_status, PipelineProviders,
  PipelineClients, PipelineCaches, jobs_provider,
}
use gitfusion.Services.Pipelines.{
  fetch_jobs, jobs_with, multi_list_jobs, fetched_trace, flight_from, trace_from, trace_with,
  multi_get_trace,
}
use gitfusion.Services.Pipelines.Traces.{
  IsTraceState, IsGood, store_trace-IsTraceState, mark_terminal_jobs-IsTraceState,
}

module _ {Float32 : Type 0} (c : PipelineClients Float32) (p : PipelineProviders Float32)
    (Answers : NumberRequest → JobTrace → Type 0) (IsFinished : GoString → GoString → Type 0) where
  -- The providers' traces are answers, and the jobs that they report as finished are finished.
  pub record IsTruthful : Type 0 where
    pub traces :
        (q : Provider) (project : GoString) (job_id : ℤ) (settings : GitServerSettings)
        (content : GoString) (truncated : Bool)
        → p.trace_of q project job_id settings ≡ ok (content, truncated)
        → Answers
            (record { git_server = settings.git_server_name; project = project; number = job_id })
            (record { content = content; truncated = truncated })
    pub jobs :
        (q : Provider) (project : GoString) (pipeline_id : ℤ) (settings : GitServerSettings)
        (l : List (PipelineJob Float32))
        → p.jobs_of q project pipeline_id settings ≡ ok l
        → All
            (λ j. is_terminal_job_status j.status ≡ true → IsFinished settings.git_server_name j.id)
            l

  abbrev Inv : PipelineCaches c → Type 0
  Inv = IsTraceState c Answers IsFinished

  -- What a trace request leaves and returns.
  record IsTraced (r : NumberRequest) (out : Result JobTrace × PipelineCaches c) : Type 0 where
    state : Inv out.1
    answer : (t : JobTrace) → All NoBar (number_fields r) → out.0 ≡ ok t → Answers r t

  terminal_get-IsGood :
      (key : GoString) (t : JobTrace) (s : PipelineCaches c)
      → Inv s
      → terminal_get c.traces key s.traces ≡ some t
      → IsGood c Answers IsFinished key t
  unfolding terminal_get
  terminal_get-IsGood key t s h found = elim (Option-cases (c.traces.get key s.traces.done)) [
    | inl gone ↦ h.live key t (rw gone at found)
    | inr (u, e) ↦ h.done key t (e ∙ (rw e at found))
  ]

  hit-IsTraced :
      (r : NumberRequest) (t : JobTrace) (s : PipelineCaches c)
      → Inv s
      → terminal_get c.traces (number_key r) s.traces ≡ some t
      → IsTraced r (ok t, s)
  hit-IsTraced r t s h found = record {
    state = h;
    answer = λ u plain e.
        (terminal_get-IsGood (number_key r) u s h (found ∙ ground (arith, e))).answers r plain refl;
  }

  module _ (r : NumberRequest) (answer : Result (GoString × Bool))
      (truth : (content : GoString) (truncated : Bool)
        → answer ≡ ok (content, truncated)
        → Answers r (record { content = content; truncated = truncated }))
      (before during : PipelineCaches c → PipelineCaches c)
      (keeps_before : (s : PipelineCaches c) → Inv s → Inv (before s))
      (keeps_during : (s : PipelineCaches c) → Inv s → Inv (during s)) where
    fetched-IsTraced :
        (a : Result (GoString × Bool)) (s : PipelineCaches c)
        → answer ≡ a
        → Inv s
        → IsTraced r (fetched_trace c p r a s)
    unfolding fetched_trace
    fetched-IsTraced (err e) s same h = record {
      state = h;
      answer = λ t plain e'. absurd (ground arith);
    }
    fetched-IsTraced (ok (content, truncated)) s same h =
        let a = truth content truncated same in
        record {
          state = store_trace-IsTraceState c Answers IsFinished p r _ s a h;
          answer = λ t plain e. subst (Answers r) (ok-injective e) a;
        }

    flight-IsTraced :
        (o : Option JobTrace) (s : PipelineCaches c)
        → terminal_get c.traces (number_key r) s.traces ≡ o
        → Inv s
        → IsTraced r (flight_from c p r answer during o s)
    unfolding flight_from
    flight-IsTraced none s e h = fetched-IsTraced answer (during s) refl (keeps_during s h)
    flight-IsTraced (some t) s e h = hit-IsTraced r t s h e

    trace-IsTraced :
        (o : Option JobTrace) (s : PipelineCaches c)
        → terminal_get c.traces (number_key r) s.traces ≡ o
        → Inv s
        → IsTraced r (trace_from c p r answer before during o s)
    unfolding trace_from
    trace-IsTraced none s e h = flight-IsTraced _ (before s) refl (keeps_before s h)
    trace-IsTraced (some t) s e h = hit-IsTraced r t s h e

  abbrev number_request : GoString → ℤ → GitServerSettings → NumberRequest
  number_request project number settings = record {
    git_server = settings.git_server_name;
    project = project;
    number = number;
  }

  multi_get_trace-IsTraced :
      (project : GoString) (job_id : ℤ) (settings : GitServerSettings)
      (before during : PipelineCaches c → PipelineCaches c) (s : PipelineCaches c)
      → IsTruthful
      → ((s : PipelineCaches c) → Inv s → Inv (before s))
      → ((s : PipelineCaches c) → Inv s → Inv (during s))
      → Inv s
      → IsTraced
          (number_request project job_id settings)
          (multi_get_trace c p project job_id settings before during s)
  unfolding multi_get_trace
  multi_get_trace-IsTraced project job_id settings before during s truthful kb kd h =
      from (jobs_provider settings.git_provider)
    where
      from :
          (o : Result Provider)
          → IsTraced
              (number_request project job_id settings)
              (trace_with c p project job_id settings before during o s)
      from (err e) = record { state = h; answer = λ t plain e'. absurd (ground arith) }
      from (ok q) =
          trace-IsTraced (number_request project job_id settings)
            (p.trace_of q project job_id settings) (truthful.traces q project job_id settings)
            before during kb kd _ s refl h

  -- If the providers are truthful, a trace request keeps the caches sound (complete traces of the
  -- right jobs only, those in the done tier of finished jobs), whatever steps other requests take
  -- before the flight and during the fetch, as long as those keep the caches sound.
  pub multi_get_trace-IsTraceState :
      (project : GoString) (job_id : ℤ) (settings : GitServerSettings)
      (before during : PipelineCaches c → PipelineCaches c) (s : PipelineCaches c)
      → IsTruthful
      → ((s : PipelineCaches c) → Inv s → Inv (before s))
      → ((s : PipelineCaches c) → Inv s → Inv (during s))
      → Inv s
      → IsTraceState c Answers IsFinished
          (multi_get_trace c p project job_id settings before during s).1
  multi_get_trace-IsTraceState project job_id settings before during s truthful kb kd h =
      (multi_get_trace-IsTraced project job_id settings before during s truthful kb kd h).state

  -- From sound caches and with truthful providers, the trace that a request without `|` gets, from
  -- either tier or fresh, is an answer for that very server, project and job, whatever steps that keep
  -- the caches sound other requests take before the flight and during the fetch.
  pub multi_get_trace-Answers :
      (project : GoString) (job_id : ℤ) (settings : GitServerSettings)
      (before during : PipelineCaches c → PipelineCaches c) (s : PipelineCaches c) (t : JobTrace)
      → IsTruthful
      → ((s : PipelineCaches c) → Inv s → Inv (before s))
      → ((s : PipelineCaches c) → Inv s → Inv (during s))
      → Inv s
      → All NoBar (number_fields (number_request project job_id settings))
      → (multi_get_trace c p project job_id settings before during s).0 ≡ ok t
      → Answers (number_request project job_id settings) t
  multi_get_trace-Answers project job_id settings before during s t truthful kb kd h plain e =
      (multi_get_trace-IsTraced project job_id settings before during s truthful kb kd h).answer t
        plain e

  -- If the providers report as finished only jobs that are, a jobs request keeps the caches sound: it
  -- marks only finished jobs.
  pub multi_list_jobs-IsTraceState :
      (project : GoString) (pipeline_id : ℤ) (settings : GitServerSettings) (s : PipelineCaches c)
      → IsTruthful
      → Inv s
      → IsTraceState c Answers IsFinished (multi_list_jobs c p project pipeline_id settings s).1
  unfolding multi_list_jobs
  multi_list_jobs-IsTraceState project pipeline_id settings s truthful h =
      from (jobs_provider settings.git_provider)
    where
      fetched :
          (a : Result (List (PipelineJob Float32)))
          → ((l : List (PipelineJob Float32))
              → a ≡ ok l
              → All
                  (λ j.
                    is_terminal_job_status j.status ≡ true
                    → IsFinished settings.git_server_name j.id)
                  l)
          → IsTraceState c Answers IsFinished (record s {
            terminal_jobs = (fetch_jobs c p settings.git_server_name a s.terminal_jobs).1;
          })
      fetched (err e) f = h
      fetched (ok l) f =
          mark_terminal_jobs-IsTraceState c Answers IsFinished p settings.git_server_name l s
            (f l refl) h

      from :
          (o : Result Provider)
          → IsTraceState c Answers IsFinished (jobs_with c p project pipeline_id settings o s).1
      from (err e) = h
      from (ok q) =
          let i =
            get_or_fetch-world c.jobs (number_key (number_request project pipeline_id settings))
              (fetch_jobs c p settings.git_server_name (p.jobs_of q project pipeline_id settings))
              s.jobs s.terminal_jobs
              (λ m. IsTraceState c Answers IsFinished (record s { terminal_jobs = m })) h
              (fetched (p.jobs_of q project pipeline_id settings)
                (truthful.jobs q project pipeline_id settings)) in
          record { live = i.live; done = i.done; finished = i.finished; marked = i.marked }
