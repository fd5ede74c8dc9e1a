-- ===== src/Api/Outcomes.antt =====
-- What the pipeline handlers of internal/api/pipeline_handler.go answer and leave, on every branch.
use gitfusion.Prelude.{
  ℕ, ◌≡◌, refl, ◌++◌, ◌⊎◌, inl, inr, none, some, Bool-cases, List, GoString, str, ℤ, nonempty, not,
  arith,
}
use gitfusion.GoError.{Result, ok, err, error_text, Result-cases}
use gitfusion.Models.{PipelineVariable}
use gitfusion.Api.Numbers.{atoi}
use gitfusion.Api.Responses.{success, numbered, pipeline_error}
use gitfusion.Api.Pipelines.{
  PipelineService, TriggerParams, IdParams, answer, parse_variables, trigger_pipeline,
  list_pipeline_jobs, get_pipeline_job_trace,
}

-- An answer is a success only if the result is a value, and then with it.
pub answer-eq-success :
    {X Y : Type 0} (status : ℕ) (f : X → Y) (r : Result X) (n : ℕ) (v : Y)
    → answer status f r ≡ success n v
    → (x : X) × (r ≡ ok x) × (v ≡ f x)
unfolding pipeline_error
answer-eq-success status f (ok x) n v e = (x, refl, ground (arith, e))
answer-eq-success status f (err x) n v e = absurd (ground (arith, e))

pub numbered-not-success :
    {X : Type 0} (status : ℕ) (text : GoString) (n : ℕ) (v : X)
    → numbered status text ≡ success n v
    → ⊥
unfolding numbered
numbered-not-success status text n v e = ground (arith, e)

module _ {Float32 S : Type 0} (service : PipelineService Float32 S) (q : IdParams) (s : S) where
  -- A request whose number is no numeral leaves the state; any other is one call of the service.
  pub list_pipeline_jobs-refused :
      atoi q.id ≡ none
      → list_pipeline_jobs service q s
        ≡ (numbered 400 (str "pipelineId must be a numeric value"), s)
  unfolding list_pipeline_jobs
  list_pipeline_jobs-refused e = rw (e, list_pipeline_jobs) refl

  pub list_pipeline_jobs-served :
      (id : ℤ)
      → atoi q.id ≡ some id
      → list_pipeline_jobs service q s ≡ (
        answer 200 (λ r. r) (service.jobs q.git_server q.project id s).0,
        (service.jobs q.git_server q.project id s).1,
      )
  unfolding list_pipeline_jobs
  list_pipeline_jobs-served id e = rw (e, list_pipeline_jobs) refl

  pub get_pipeline_job_trace-refused :
      atoi q.id ≡ none
      → get_pipeline_job_trace service q s ≡ (numbered 400 (str "jobId must be a numeric value"), s)
  unfolding get_pipeline_job_trace
  get_pipeline_job_trace-refused e = rw (e, get_pipeline_job_trace) refl

  pub get_pipeline_job_trace-served :
      (id : ℤ)
      → atoi q.id ≡ some id
      → get_pipeline_job_trace service q s ≡ (
        answer 200
            (λ t. record { job_id = q.id; content = t.content; truncated = some t.truncated })
            (service.trace q.git_server q.project id s).0,
        (service.trace q.git_server q.project id s).1,
      )
  unfolding get_pipeline_job_trace
  get_pipeline_job_trace-served id e = rw (e, get_pipeline_job_trace) refl

module _ (unmarshal : GoString → Result (List PipelineVariable)) {Float32 S : Type 0}
    (service : PipelineService Float32 S) (q : TriggerParams) (s : S) where
  -- A refused request leaves the state; any other has variables that are read, and is one call of the
  -- service.
  pub trigger_pipeline-outcome :
      ((text : GoString) × (trigger_pipeline unmarshal service q s ≡ (numbered 400 text, s)))
      ⊎ ((variables : List PipelineVariable) × (parse_variables unmarshal q.variables
            ≡ ok variables)
          × (trigger_pipeline unmarshal service q s ≡ (
            answer 201 (λ r. r) (service.trigger q.git_server q.project q.ref variables s).0,
            (service.trigger q.git_server q.project q.ref variables s).1,
          )))
  unfolding trigger_pipeline
  trigger_pipeline-outcome = elim (Bool-cases (not (nonempty q.git_server))) [
    | inl e ↦ inl (str "gitServer parameter is required", rw e refl)
    | inr e ↦ elim (Bool-cases (not (nonempty q.project))) [
      | inl f ↦ inl (str "project parameter is required", rw (e, f) refl)
      | inr f ↦ elim (Bool-cases (not (nonempty q.ref))) [
        | inl k ↦ inl (str "ref parameter is required", rw (e, f, k) refl)
        | inr k ↦ elim (Result-cases (parse_variables unmarshal q.variables)) [
          | inl (variables, read) ↦ inr (variables, read, rw (e, f, k, read) refl)
          | inr (x, unread) ↦ inl (
            str "invalid variables JSON format (expected array of {key, value, variableType}): "
                ++ error_text x,
            rw (e, f, k, unread) refl,
          )
        ]
      ]
    ]
  ]
