-- ===== src/Server/JobServices.antt =====
-- The pipeline service's own state under requests for jobs and traces, and what they return.
use mathlib.Core.Path.{subst}
use gitfusion.Prelude.{◌≡◌, sym, GoString, All, ℤ}
use gitfusion.GoError.{Result}
use gitfusion.Services.Keys.{NoBar}
use gitfusion.Services.Dispatch.{ServiceState}
use gitfusion.Services.Dispatch.Kept.{IsKept, serve-IsKept}
use gitfusion.Services.Cached.{IsFaithful}
use gitfusion.Services.PipelineTypes.{
  pipelines_fields, pipelines_key, NumberRequest, number_fields, number_key, PipelineCaches,
}
use gitfusion.Services.Pipelines.Lists.{pipelines_key-injective, number_key-injective}
use gitfusion.Services.Pipelines.Traces.{IsTraceState}
use gitfusion.Services.Pipelines.Requests.{
  multi_get_trace-IsTraceState, multi_get_trace-Answers, multi_list_jobs-IsTraceState,
}
use gitfusion.Services.Pipelines.Jobs.{multi_list_jobs-IsListed, multi_get_trace-keeps}
use gitfusion.Services.Pipelines.Service.{list_pipeline_jobs as list_jobs, get_job_trace}
use gitfusion.Server.Types.{World, Caches, App}
use gitfusion.Server.Claims.{Claims, IsTruthful}
use gitfusion.Server.Sound.{IsSoundApp}
use gitfusion.Server.Handled.{usable, sound_settings}

abbrev pub number_of : GoString → GoString → ℤ → NumberRequest
number_of server project n = record { git_server = server; project = project; number = n }

module _ {Float32 : Type 0} (c : Caches Float32) (a : Claims Float32) where
  -- The part of a sound state that is the pipeline service's own.
  pub record IsSoundPipelines (s : PipelineCaches c.pipelines) : Type 0 where
    pub pipelines :
        IsFaithful c.pipelines.pipelines pipelines_key
          (λ r. All NoBar (pipelines_fields r))
          a.pipelines
          pipelines_key-injective
          s.pipelines
    pub jobs :
        IsFaithful c.pipelines.jobs number_key
          (λ r. All NoBar (number_fields r))
          a.jobs
          number_key-injective
          s.jobs
    pub traces : IsTraceState c.pipelines a.traces a.finished s

  sound_pipelines : (s : App c) → IsSoundApp c a s → IsSoundPipelines s.pipelines
  sound_pipelines s h = record { pipelines = h.pipelines; jobs = h.jobs; traces = h.traces }

  -- The request of the settings of a server is the request of that server.
  same_server :
      {V : Type 0} (Answers : NumberRequest → V → Type 0) (project : GoString) (n : ℤ)
      {server server' : GoString} (v : V)
      → server' ≡ server
      → (All NoBar (number_fields (number_of server' project n))
          → Answers (number_of server' project n) v)
      → All NoBar (number_fields (number_of server project n))
      → Answers (number_of server project n) v
  same_server Answers project n v e each plain =
      subst
        (λ x.
          (All NoBar (number_fields (number_of x project n)) → Answers (number_of x project n) v))
        e each plain

  module _ (w : World Float32) (t : IsTruthful c.pipelines a w) (s : App c)
      (h : IsSoundApp c a s) where
    pub sound_jobs :
        (server project : GoString) (id : ℤ)
        → IsKept w.cluster c.settings IsSoundPipelines
            (λ v.
              (All NoBar (number_fields (number_of server project id))
                → a.jobs (number_of server project id) v))
            (list_jobs c.pipelines w.pipelines w.cluster c.settings server project id
              (record { settings = s.settings; cache = s.pipelines }))
    unfolding list_jobs
    sound_jobs server project id =
        serve-IsKept w.cluster c.settings IsSoundPipelines _ server _ _
          (λ settings named.
            let i =
              multi_list_jobs-IsListed c.pipelines w.pipelines a.jobs project id settings
                s.pipelines (λ q v e. t.jobs q project id settings v e) h.jobs in
            (
              record {
                pipelines =
                    subst
                      (IsFaithful c.pipelines.pipelines pipelines_key
                        (λ r. All NoBar (pipelines_fields r)) a.pipelines pipelines_key-injective)
                      (sym i.pipelines) h.pipelines;
                jobs = i.jobs;
                traces =
                    multi_list_jobs-IsTraceState c.pipelines w.pipelines a.traces a.finished project
                      id settings s.pipelines t.on_jobs h.traces;
              },
              λ v e. same_server a.jobs project id v named (λ plain. i.answer v plain e),
            ))
          (usable w.cluster c.settings s.settings h.settings) (sound_pipelines s h)

    pub sound_trace :
        (server project : GoString) (id : ℤ)
        → IsKept w.cluster c.settings IsSoundPipelines
            (λ v.
              (All NoBar (number_fields (number_of server project id))
                → a.traces (number_of server project id) v))
            (get_job_trace c.pipelines w.pipelines w.cluster c.settings server project id
              (λ x. x)
              (λ x. x)
              (record { settings = s.settings; cache = s.pipelines }))
    unfolding get_job_trace
    sound_trace server project id =
        serve-IsKept w.cluster c.settings IsSoundPipelines _ server _ _
          (λ settings named. (
            record {
              pipelines =
                  multi_get_trace-keeps c.pipelines w.pipelines
                    (λ x.
                      IsFaithful c.pipelines.pipelines pipelines_key
                        (λ r. All NoBar (pipelines_fields r)) a.pipelines pipelines_key-injective
                        x.pipelines)
                    (λ x tiers k. k) project id settings s.pipelines h.pipelines;
              jobs =
                  multi_get_trace-keeps c.pipelines w.pipelines
                    (λ x.
                      IsFaithful c.pipelines.jobs number_key (λ r. All NoBar (number_fields r))
                        a.jobs number_key-injective x.jobs)
                    (λ x tiers k. k) project id settings s.pipelines h.jobs;
              traces =
                  multi_get_trace-IsTraceState c.pipelines w.pipelines a.traces a.finished project
                    id settings (λ x. x) (λ x. x) s.pipelines t.on_jobs (λ x k. k) (λ x k. k)
                    h.traces;
            },
            λ v e. same_server a.traces project id v named (λ plain.
                multi_get_trace-Answers c.pipelines w.pipelines a.traces a.finished project id
                  settings (λ x. x) (λ x. x) s.pipelines v t.on_jobs (λ x k. k) (λ x k. k) h.traces
                  plain e),
          ))
          (usable w.cluster c.settings s.settings h.settings) (sound_pipelines s h)

    -- A sound state of the pipeline service, and sound settings, are put back.
    pub put_back :
        {V : Type 0} (Q : V → Type 0)
        (out : Result V × ServiceState c.settings (PipelineCaches c.pipelines))
        → IsKept w.cluster c.settings IsSoundPipelines Q out
        → IsSoundApp c a (record s { settings = out.1.settings; pipelines = out.1.cache })
    put_back Q out i = record {
      settings = sound_settings w.cluster c.settings _ i.settings;
      repositories = h.repositories;
      organizations = h.organizations;
      branches = h.branches;
      pull_requests = h.pull_requests;
      pipelines = i.cache.pipelines;
      jobs = i.cache.jobs;
      traces = i.cache.traces;
    }
