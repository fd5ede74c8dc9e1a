-- ===== src/Services/Pipelines/Jobs.antt =====
-- The cache of job lists of internal/services/pipelines/pipelines_provider.go, and what the requests
-- for jobs and traces leave as it is.
use gitfusion.Prelude.{
  ◌≡◌, refl, ◌∙◌, sym, Bool-cases, inl, inr, not, ◌&&◌, leb, length, Bool, Option, none, some, List,
  GoString, All, ℤ, arith,
}
use gitfusion.GoError.{Result, ok, err}
use gitfusion.Models.{GitServerSettings, PipelineJob}
use gitfusion.Cache.Client.{Fetched, hit, miss, refreshed}
use gitfusion.Cache.Terminal.{Tiers, terminal_get}
use gitfusion.Cache.Manager.{JobTrace}
use gitfusion.Services.Keys.{NoBar}
use gitfusion.Services.Cached.{IsFaithful, get_or_fetch-IsFaithful, get_or_fetch-Answers}
use gitfusion.Services.Provider.{Provider}
use gitfusion.Services.PipelineTypes.{
  NumberRequest, number_fields, number_key, PipelineProviders, PipelineClients, PipelineCaches,
  jobs_provider, max_cacheable_trace_bytes,
}
use gitfusion.Services.Pipelines.{
  fetch_jobs, jobs_with, multi_list_jobs, store_trace, fetched_trace, flight_from, trace_from,
  trace_with, multi_get_trace,
}
use gitfusion.Services.Pipelines.Lists.{number_key-injective}

abbrev pub number_request : GoString → ℤ → GitServerSettings → NumberRequest
number_request project id settings = record {
  git_server = settings.git_server_name;
  project = project;
  number = id;
}

module _ {Float32 : Type 0} (c : PipelineClients Float32) (p : PipelineProviders Float32) where
  fetch_jobs-result :
      (server : GoString) (r : Result (List (PipelineJob Float32))) (m : c.terminal_jobs.Store)
      → (fetch_jobs c p server r m).0 ≡ r
  unfolding fetch_jobs
  fetch_jobs-result server (ok jobs) m = refl
  fetch_jobs-result server (err e) m = refl

  -- Where the cache has no entry, the provider is called, and its result is the result.
  pub multi_list_jobs-miss :
      (project : GoString) (id : ℤ) (settings : GitServerSettings) (s : PipelineCaches c)
      (q : Provider)
      → jobs_provider settings.git_provider ≡ ok q
      → c.jobs.client.get (number_key (number_request project id settings)) s.jobs ≡ none
      → (multi_list_jobs c p project id settings s).0 ≡ p.jobs_of q project id settings
  unfolding multi_list_jobs jobs_with
  multi_list_jobs-miss project id settings s q known missing = rw known (
      from (
        c.jobs.get_or_fetch_law (number_key (number_request project id settings)) fetch s.jobs
          s.terminal_jobs))
    where
      fetch : c.terminal_jobs.Store → Result (List (PipelineJob Float32)) × c.terminal_jobs.Store
      fetch = fetch_jobs c p settings.git_server_name (p.jobs_of q project id settings)

      from :
          {r : Result (List (PipelineJob Float32))} {t : c.jobs.client.Store}
          {x : c.terminal_jobs.Store}
          → Fetched c.jobs.client
              (number_key (number_request project id settings))
              fetch
              s.jobs
              s.terminal_jobs
              r
              t
              x
          → r ≡ p.jobs_of q project id settings
      from (hit v found r t x) = absurd (ground (arith, sym missing ∙ found))
      from (miss r t x) =
          r
          ∙ fetch_jobs-result settings.git_server_name (p.jobs_of q project id settings)
              s.terminal_jobs
      from (refreshed v found r t x) = absurd (ground (arith, sym missing ∙ found))

  module _ (Answers : NumberRequest → List (PipelineJob Float32) → Type 0) where
    abbrev IsTrue : c.jobs.client.Store → Type 0
    IsTrue =
        IsFaithful c.jobs number_key (λ r. All NoBar (number_fields r)) Answers number_key-injective

    -- What a jobs request leaves and returns.
    pub record IsListed (r : NumberRequest) (s : PipelineCaches c)
        (out : Result (List (PipelineJob Float32)) × PipelineCaches c) : Type 0 where
      pub jobs :
          IsFaithful c.jobs number_key
            (λ r. All NoBar (number_fields r))
            Answers
            number_key-injective
            out.1.jobs
      pub pipelines : out.1.pipelines ≡ s.pipelines
      pub answer :
          (v : List (PipelineJob Float32))
          → All NoBar (number_fields r)
          → out.0 ≡ ok v
          → Answers r v

    -- If a provider's jobs have what is claimed, and the cached ones have it of the requests of their keys
    -- without `|`, then so it is after a jobs request, and of its answer.
    pub multi_list_jobs-IsListed :
        (project : GoString) (id : ℤ) (settings : GitServerSettings) (s : PipelineCaches c)
        → ((q : Provider) (v : List (PipelineJob Float32))
            → p.jobs_of q project id settings ≡ ok v
            → Answers (number_request project id settings) v)
        → IsFaithful c.jobs number_key
            (λ r. All NoBar (number_fields r))
            Answers
            number_key-injective
            s.jobs
        → IsListed
            (number_request project id settings)
            s
            (multi_list_jobs c p project id settings s)
    unfolding multi_list_jobs
    multi_list_jobs-IsListed project id settings s truth h =
        from (jobs_provider settings.git_provider)
      where
        from :
            (o : Result Provider)
            → IsListed
                (number_request project id settings)
                s
                (jobs_with c p project id settings o s)
        from (err e) = record {
          jobs = h;
          pipelines = refl;
          answer = λ v plain e'. absurd (ground arith);
        }
        from (ok q) =
            let fetch = fetch_jobs c p settings.git_server_name (p.jobs_of q project id settings) in
            let told = λ (v : List (PipelineJob Float32)) (e : (fetch s.terminal_jobs).0 ≡ ok v).
              truth q v (
                sym (
                  fetch_jobs-result settings.git_server_name (p.jobs_of q project id settings)
                    s.terminal_jobs)
                ∙ e) in
            record {
              jobs =
                  get_or_fetch-IsFaithful c.jobs number_key (λ r. All NoBar (number_fields r))
                    Answers number_key-injective (number_request project id settings) fetch s.jobs
                    s.terminal_jobs told h;
              pipelines = refl;
              answer =
                  get_or_fetch-Answers c.jobs number_key (λ r. All NoBar (number_fields r)) Answers
                    number_key-injective (number_request project id settings) fetch s.jobs
                    s.terminal_jobs told h;
            }

  -- A trace request writes to the two tiers of traces only.
  module _ (Q : PipelineCaches c → Type 0)
      (keeps : (s : PipelineCaches c) (t : Tiers c.traces)
        → Q s
        → Q (record s { traces = t })) where
    store_trace-keeps :
        (r : NumberRequest) (t : JobTrace) (s : PipelineCaches c) → Q s → Q (store_trace c p r t s)
    unfolding store_trace
    store_trace-keeps r t s h =
        elim (Bool-cases (not t.truncated && leb (length t.content) max_cacheable_trace_bytes)) [
          | inl e ↦ rw e (keeps s _ h)
          | inr e ↦ rw e h
        ]

    fetched_trace-keeps :
        (r : NumberRequest) (answer : Result (GoString × Bool)) (s : PipelineCaches c)
        → Q s
        → Q (fetched_trace c p r answer s).1
    unfolding fetched_trace
    fetched_trace-keeps r (err e) s h = h
    fetched_trace-keeps r (ok (content, truncated)) s h =
        store_trace-keeps r (record { content = content; truncated = truncated }) s h

    flight_from-keeps :
        (r : NumberRequest) (answer : Result (GoString × Bool)) (o : Option JobTrace)
        (s : PipelineCaches c)
        → Q s
        → Q (flight_from c p r answer (λ s. s) o s).1
    unfolding flight_from
    flight_from-keeps r answer none s h = fetched_trace-keeps r answer s h
    flight_from-keeps r answer (some t) s h = h

    trace_from-keeps :
        (r : NumberRequest) (answer : Result (GoString × Bool)) (o : Option JobTrace)
        (s : PipelineCaches c)
        → Q s
        → Q (trace_from c p r answer (λ s. s) (λ s. s) o s).1
    unfolding trace_from
    trace_from-keeps r answer none s h = flight_from-keeps r answer _ s h
    trace_from-keeps r answer (some t) s h = h

    pub multi_get_trace-keeps :
        (project : GoString) (id : ℤ) (settings : GitServerSettings) (s : PipelineCaches c)
        → Q s
        → Q (multi_get_trace c p project id settings (λ s. s) (λ s. s) s).1
    unfolding multi_get_trace
    multi_get_trace-keeps project id settings s h = from (jobs_provider settings.git_provider)
      where
        from :
            (o : Result Provider) → Q (trace_with c p project id settings (λ s. s) (λ s. s) o s).1
        from (err e) = h
        from (ok q) =
            trace_from-keeps (number_request project id settings) (p.trace_of q project id settings)
              (terminal_get c.traces (number_key (number_request project id settings)) s.traces) s h
