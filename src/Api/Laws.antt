-- ===== src/Api/Laws.antt =====
-- The statuses that the handlers of internal/api answer with.
use gitfusion.Prelude.{
  Option, ℕ, ◌+◌, ◌≡◌, ◌≤◌, refl, Bool, true, false, ◌||◌, List, GoString, nonempty, ◌==◌, nat_eq,
  string_eq, contains, eq_str, ℤ, itoa, int_max, pos_part, neg_part, if◌then◌else◌, Bool-cases, inl,
  inr, arith,
}
use gitfusion.GoError.{
  GoError, Sentinel, Result, Result-cases, ok, err, is_error, error_text, is_gitlab_not_found,
  gitlab_status,
}
use gitfusion.Models.{PipelineVariable, PipelineResponse}
use gitfusion.GitLab.Calls.{call_error}
use gitfusion.GitLab.Convert.{map_jobs_error, map_trace_status, has_status}
use gitfusion.Cache.Manager.{Clients, Manager, invalidate_cache, supported_endpoints}
use gitfusion.Api.Numbers.{atoi-itoa}
use gitfusion.Api.Responses.{status_code, numbered, pipeline_error, pull_request_error}
use gitfusion.Api.Pipelines.{
  PipelineService, TriggerParams, answer, parse_variables, trigger_pipeline, list_pipeline_jobs,
}
use gitfusion.Api.Catalog.{cache_error, handle_invalidate}

-- The status for a GitLab failure.
abbrev pub gitlab_failure_status : Bool → Bool → ℕ
gitlab_failure_status missing denied = if missing then 404 else if denied then 401 else 500

-- An error of the GitLab client that is none of the program's own becomes 404 if GitLab said so,
-- 401 if GitLab answered 401 or 403, and 500 in every other case.
pub status-map_jobs_error :
    (e : GoError) (project : GoString) (id : ℤ)
    → ((s : Sentinel) → is_error e s ≡ false)
    → status_code (pipeline_error {A = Unit} (map_jobs_error e project id))
      ≡ gitlab_failure_status
          (is_gitlab_not_found e || has_status (gitlab_status e) 404)
          (has_status (gitlab_status e) 401 || has_status (gitlab_status e) 403)
unfolding map_jobs_error pipeline_error is_error numbered
status-map_jobs_error e project id h =
    ground (arith, h Sentinel.unauthorized, h Sentinel.bad_request, h Sentinel.not_found)

-- The error for a refused call to GitLab whose own error is none of the program's becomes 404 if GitLab
-- said so, 401 if it answered 401 or 403, and else 500: both where the pipeline handler maps it, as for a
-- list of pipelines or to create one, and where the pull request handler does, as for merge requests.
pub status-call_error :
    (missing failed : GoString) (status : Option ℕ) (e : GoError)
    → ((s : Sentinel) → is_error e s ≡ false)
    → (status_code (pipeline_error {A = Unit} (call_error missing failed status e))
        ≡ gitlab_failure_status
            (is_gitlab_not_found e || has_status status 404)
            (has_status status 401 || has_status status 403))
      × (status_code (pull_request_error {A = Unit} (call_error missing failed status e))
          ≡ gitlab_failure_status
              (is_gitlab_not_found e || has_status status 404)
              (has_status status 401 || has_status status 403))
unfolding call_error pipeline_error pull_request_error is_error numbered
status-call_error missing failed status e h = (
  ground (arith, h Sentinel.unauthorized, h Sentinel.bad_request, h Sentinel.not_found),
  ground (arith, h Sentinel.unauthorized, h Sentinel.not_found),
)

-- The error for a status that GitLab gives for a job's log becomes 404 for 404, 401 for 401 and
-- 403, and 500 for every other status.
pub status-map_trace_status :
    (status : ℕ) (project : GoString) (job_id : ℤ)
    → status_code (pipeline_error {A = Unit} (map_trace_status status project job_id))
      ≡ gitlab_failure_status (status == 404) (status == 401 || status == 403)
unfolding map_trace_status pipeline_error is_error numbered
status-map_trace_status status project job_id = ground arith

module _ {Float32 : Type 0} (c : Clients Float32) where
  -- The status is 200 for a supported endpoint and 500 for every other string; it is never 400.
  pub status-handle_invalidate :
      (endpoint : GoString) (m : Manager c)
      → status_code (handle_invalidate c endpoint m).0
        ≡ (if contains supported_endpoints endpoint then 200 else 500)
  unfolding handle_invalidate invalidate_cache cache_error supported_endpoints error_text eq_str
  status-handle_invalidate endpoint m = ground arith

answer-created :
    {A B : Type 0} (f : A → B) (m : Result A)
    → status_code (answer 201 f m) ≡ 201
    → (r : A) × (m ≡ ok r)
unfolding pipeline_error numbered
answer-created f (ok r) h = (r, refl)
answer-created f (err e) h = absurd (ground arith)

module _ {Float32 S : Type 0} (service : PipelineService Float32 S) where
  -- A job list request whose `pipelineId` is the decimal text of a 64-bit `int` asks the service for
  -- exactly that pipeline, and the handler answers with the service's answer.
  pub list_pipeline_jobs-itoa :
      (git_server project : GoString) (z : ℤ) (s : S)
      → pos_part z ≤ int_max
      → neg_part z ≤ int_max + 1
      → list_pipeline_jobs service
          (record { git_server = git_server; project = project; id = itoa z })
          s
        ≡ (
          answer 200 (λ r. r) (service.jobs git_server project z s).0,
          (service.jobs git_server project z s).1,
        )
  unfolding list_pipeline_jobs
  list_pipeline_jobs-itoa git_server project z s h k = rw (atoi-itoa z h k, list_pipeline_jobs) refl

  -- A trigger request is answered with 201 only if its three required parameters are not empty and
  -- the service, called with them and the parsed variables, triggered a pipeline.
  pub trigger_pipeline-created :
      (unmarshal : GoString → Result (List PipelineVariable)) (q : TriggerParams) (s : S)
      → status_code (trigger_pipeline unmarshal service q s).0 ≡ 201
      → (nonempty q.git_server ≡ true)
        × (nonempty q.project ≡ true)
        × (nonempty q.ref ≡ true)
        × (variables : List PipelineVariable) × (parse_variables unmarshal q.variables
            ≡ ok variables)
        × (r : PipelineResponse) × ((service.trigger q.git_server q.project q.ref variables s).0
            ≡ ok r)
  unfolding trigger_pipeline numbered
  trigger_pipeline-created unmarshal q s h = elim (Bool-cases (nonempty q.git_server)) [
    | inr e ↦ absurd (ground (arith, h))
    | inl e ↦ elim (Bool-cases (nonempty q.project)) [
      | inr f ↦ absurd (ground (arith, h))
      | inl f ↦ elim (Bool-cases (nonempty q.ref)) [
        | inr g ↦ absurd (ground (arith, h))
        | inl g ↦ elim (Result-cases (parse_variables unmarshal q.variables)) [
          | inr (x, p) ↦ absurd (ground (arith, h, p))
          | inl (variables, p) ↦
              let called = service.trigger q.git_server q.project q.ref variables s in
              let created : status_code (answer 201 (λ r. r) called.0) ≡ 201 =
                rw (e, f, g, p) at h in
              let triggered = answer-created (λ r. r) called.0 created in
              (e, f, g, variables, p, triggered.0, triggered.1)
        ]
      ]
    ]
  ]
