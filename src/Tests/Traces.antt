-- ===== src/Tests/Traces.antt =====
-- Requests for pipelines, jobs and traces of internal/services/pipelines.
use mathlib.Core.Path.{subst}
use gitfusion.Prelude.{
  ◌≡◌, ◌≢◌, ◌++◌, refl, sym, Bool, true, false, none, some, List, [], ◌∷◌, GoString, str, All, pos,
  itoa, count, eq_str, arith, length, ◌≤◌,
}
use gitfusion.GoError.{ok, ok-injective}
use gitfusion.Models.{GitServerSettings, PipelineListOptions, PipelinesResponse, PipelineJob}
use gitfusion.Cache.Assoc.{assoc_get, assoc_fetch}
use gitfusion.Cache.Manager.{JobTrace}
use gitfusion.Cache.Terminal.{terminal_get}
use gitfusion.Services.Keys.{NoBar, join_bar}
use gitfusion.Services.Provider.{Provider, gitlab, provider_of}
use gitfusion.Services.Krci.{get_settings}
use gitfusion.Services.PipelineTypes.{
  PipelinesRequest, pipelines_fields, pipelines_key, NumberRequest, number_fields, number_key,
  terminal_job_key, is_terminal_job_status, PipelineProviders, PipelineCaches, jobs_provider,
  max_cacheable_trace_bytes,
}
use gitfusion.Services.Pipelines.{list_request, multi_get_trace, multi_list_jobs}
use gitfusion.Services.Pipelines.Traces.{IsTraceState}
use gitfusion.Services.Pipelines.Requests.{
  IsTruthful, multi_get_trace-IsTraceState, multi_get_trace-Answers, multi_list_jobs-IsTraceState,
}
use gitfusion.Services.Pipelines.Race.{multi_get_trace_late_mark}
use gitfusion.Services.Pipelines.Service.{list_pipelines, pipelines_key_collision}
use gitfusion.Tests.Data.{
  cluster, gl_settings, settings_cache, fresh, first_pipelines, no_pipelines, pipeline_clients,
  empty_caches, job,
}

-- A provider whose trace of a job is the job's number, and whose only job is finished.
abbrev providers : Bool → PipelineProviders Unit
providers truncated = record {
  trigger_of = λ q project ref variables settings.
      ok (record { id = pos 1; ref = ref; sha = none; status = str "created"; web_url = [] });
  list_of = λ q project settings opts. ok (record {
    items = [];
    pagination = record { page = some opts.page; per_page = some opts.per_page; total = pos 0 };
  });
  jobs_of = λ q project pipeline_id settings. ok (job (str "7") (str "success") ∷ []);
  trace_of = λ q project job_id settings. ok (itoa job_id, truncated);
}

abbrev Prints : NumberRequest → JobTrace → Type 0
Prints r t = t.content ≡ itoa r.number

abbrev IsSeven : GoString → GoString → Type 0
IsSeven server id = id ≡ str "7"

providers-IsTruthful : IsTruthful pipeline_clients (providers false) Prints IsSeven
providers-IsTruthful = record {
  traces = λ q project job_id settings content truncated e. ground (arith, e);
  jobs = λ q project pipeline_id settings l e. finished l e;
}
  where
    finished :
        (l : List (PipelineJob Unit))
        → ok (job (str "7") (str "success") ∷ []) ≡ ok l
        → All (λ j. is_terminal_job_status j.status ≡ true → IsSeven (str "gl") j.id) l
    finished l e =
        subst (All (λ j. is_terminal_job_status j.status ≡ true → IsSeven (str "gl") j.id))
          (ok-injective e) (λ h. refl, tt)

empty_caches-IsTraceState : IsTraceState pipeline_clients Prints IsSeven empty_caches
unfolding assoc_get
empty_caches-IsTraceState = record {
  live = λ key t e. absurd (ground arith);
  done = λ key t e. absurd (ground arith);
  finished = λ r t plain e. absurd (ground arith);
  marked = λ server id b plain e. absurd (ground arith);
}

abbrev trace_caches : PipelineCaches pipeline_clients
trace_caches =
    (multi_get_trace pipeline_clients (providers false) (str "me/app") (pos 7) gl_settings (λ s. s)
      (λ s. s) empty_caches).1

multi_get_trace-IsTraceState_example : IsTraceState pipeline_clients Prints IsSeven trace_caches
multi_get_trace-IsTraceState_example =
    multi_get_trace-IsTraceState pipeline_clients (providers false) Prints IsSeven (str "me/app")
      (pos 7) gl_settings (λ s. s) (λ s. s) empty_caches providers-IsTruthful (λ s h. h) (λ s h. h)
      empty_caches-IsTraceState

multi_list_jobs-IsTraceState_example :
    IsTraceState pipeline_clients Prints IsSeven
      (multi_list_jobs pipeline_clients
        (providers false)
        (str "me/app")
        (pos 3)
        gl_settings
        empty_caches).1
multi_list_jobs-IsTraceState_example =
    multi_list_jobs-IsTraceState pipeline_clients (providers false) Prints IsSeven (str "me/app")
      (pos 3) gl_settings empty_caches providers-IsTruthful empty_caches-IsTraceState

abbrev seventh : NumberRequest
seventh = record { git_server = str "gl"; project = str "me/app"; number = pos 7 }

abbrev seventh_trace : JobTrace
seventh_trace = record { content = str "7"; truncated = false }

seventh-plain : All NoBar (number_fields seventh)
unfolding count itoa
seventh-plain = (refl, (refl, (refl, tt)))

multi_get_trace_run :
    (multi_get_trace pipeline_clients
      (providers false)
      (str "me/app")
      (pos 7)
      gl_settings
      (λ s. s)
      (λ s. s)
      empty_caches).0
    ≡ ok seventh_trace
unfolding multi_get_trace assoc_get terminal_get itoa eq_str provider_of
multi_get_trace_run = refl

multi_get_trace-Answers_example : Prints seventh seventh_trace
multi_get_trace-Answers_example =
    multi_get_trace-Answers pipeline_clients (providers false) Prints IsSeven (str "me/app") (pos 7)
      gl_settings (λ s. s) (λ s. s) empty_caches seventh_trace providers-IsTruthful (λ s h. h)
      (λ s h. h) empty_caches-IsTraceState seventh-plain multi_get_trace_run

gl-jobs_provider : jobs_provider (str "gitlab") ≡ ok gitlab
unfolding jobs_provider provider_of eq_str
gl-jobs_provider = refl

seventh-missing :
    terminal_get pipeline_clients.traces (number_key seventh) empty_caches.traces ≡ none
unfolding terminal_get assoc_get
seventh-missing = refl

-- Another request marks job 7 as finished during the fetch.
abbrev marking : PipelineCaches pipeline_clients → PipelineCaches pipeline_clients
marking s = record s {
  terminal_jobs = (terminal_job_key (str "gl") (itoa (pos 7)), true) ∷ s.terminal_jobs;
}

seventh-running :
    pipeline_clients.terminal_jobs.get
      (terminal_job_key (str "gl") (itoa (pos 7)))
      empty_caches.terminal_jobs
    ≡ none
unfolding assoc_get
seventh-running = refl

seventh-marked :
    pipeline_clients.terminal_jobs.get
      (terminal_job_key (str "gl") (itoa (pos 7)))
      (marking empty_caches).terminal_jobs
    ≡ some true
unfolding assoc_get terminal_job_key itoa eq_str join_bar
seventh-marked = refl

seventh-small : length (itoa (pos 7)) ≤ max_cacheable_trace_bytes
unfolding itoa
seventh-small = omega arith

multi_get_trace_late_mark_example :
    (multi_get_trace pipeline_clients
      (providers false)
      (str "me/app")
      (pos 7)
      gl_settings
      (λ s. s)
      marking
      empty_caches).1.traces
    ≡ record (marking empty_caches).traces {
      done = (number_key seventh, record { content = itoa (pos 7); truncated = false }) ∷ [];
    }
multi_get_trace_late_mark_example =
    multi_get_trace_late_mark pipeline_clients (providers false) (str "me/app") (pos 7) gl_settings
      gitlab (itoa (pos 7)) marking empty_caches true gl-jobs_provider seventh-missing refl
      seventh-small seventh-running seventh-marked

-- Lists of pipelines: an empty page, numbered as asked.
abbrev IsNumbered : PipelinesRequest → PipelinesResponse → Type 0
IsNumbered r v = v ≡ record {
  items = [];
  pagination = record { page = some r.page; per_page = some r.per_page; total = pos 0 };
}

list_of-IsNumbered :
    (q : Provider) (project : GoString) (settings : GitServerSettings) (opts : PipelineListOptions)
    (v : PipelinesResponse)
    → (providers false).list_of q project settings opts ≡ ok v
    → IsNumbered
        (list_request pipeline_clients (providers false) settings.git_server_name project opts)
        v
list_of-IsNumbered q project settings opts v e = sym (ok-injective e)

abbrev pipelines_request : PipelinesRequest
pipelines_request = record {
  git_server = str "gl";
  project = str "me/app";
  ref = [];
  status = [];
  page = pos 1;
  per_page = pos 20;
}

pipelines_request-plain : All NoBar (pipelines_fields pipelines_request)
unfolding count itoa
pipelines_request-plain = (refl, (refl, (refl, (refl, (refl, (refl, tt))))))

list_pipelines_run :
    (list_pipelines pipeline_clients
      (providers false)
      cluster
      settings_cache
      (str "gl")
      (str "me/app")
      first_pipelines
      fresh).0
    ≡ ok no_pipelines
unfolding list_pipelines assoc_fetch assoc_get get_settings provider_of eq_str
list_pipelines_run = refl

pipelines_key_collision_example :
    (record pipelines_request { ref = str "main" ++ b'|' ∷ []; status = str "running" }
      ≢ record pipelines_request { ref = str "main"; status = b'|' ∷ str "running" })
    × (pipelines_key
          (record pipelines_request { ref = str "main" ++ b'|' ∷ []; status = str "running" })
        ≡ pipelines_key
            (record pipelines_request { ref = str "main"; status = b'|' ∷ str "running" }))
pipelines_key_collision_example =
    pipelines_key_collision (record pipelines_request { ref = str "main"; status = str "running" })
