-- ===== src/Api/Pipelines.antt =====
-- internal/api/pipeline_handler.go. The handler is written against the interface
-- `pipelineService`, whose state here is any type.
use gitfusion.Prelude.{
  ℕ, Bool, Option, none, some, List, [], ◌++◌, GoString, str, nonempty, ℤ, if◌then◌else◌, not,
}
use gitfusion.GoError.{Result, ok, err, error_text}
use gitfusion.Models.{
  PipelineVariable, PipelineResponse, PipelinesResponse, PipelineJob, PipelineListOptions,
}
use gitfusion.Cache.Manager.{JobTrace}
use gitfusion.Api.Pagination.{clamp_pagination}
use gitfusion.Api.Numbers.{atoi}
use gitfusion.Api.Responses.{Response, success, numbered, pipeline_error}

-- `pipelineService`
pub record PipelineService (Float32 S : Type 0) : Type 0 where
  pub trigger :
      GoString → GoString → GoString → List PipelineVariable → S → Result PipelineResponse × S
  pub list : GoString → GoString → PipelineListOptions → S → Result PipelinesResponse × S
  pub jobs : GoString → GoString → ℤ → S → Result (List (PipelineJob Float32)) × S
  pub trace : GoString → GoString → ℤ → S → Result JobTrace × S

pub record TriggerParams : Type 0 where
  pub git_server : GoString
  pub project : GoString
  pub ref : GoString
  pub variables : Option GoString

pub record ListParams : Type 0 where
  pub git_server : GoString
  pub project : GoString
  pub ref : Option GoString
  pub status : Option GoString
  pub page : Option ℤ
  pub per_page : Option ℤ

-- The parameters of the job list and of a job's trace, whose `id` is `pipelineId` or `jobId`.
pub record IdParams : Type 0 where
  pub git_server : GoString
  pub project : GoString
  pub id : GoString

pub record JobTraceResponse : Type 0 where
  pub job_id : GoString
  pub content : GoString
  pub truncated : Option Bool

abbrev pub answer : {A B : Type 0} → ℕ → (A → B) → Result A → Response B
answer status f (ok a) = success status (f a)
answer status f (err e) = pipeline_error e

unfoldable pub nonempty_ref : Option GoString → Option GoString
nonempty_ref none = none
nonempty_ref (some r) = if nonempty r then some r else none

unfoldable pub list_options : ListParams → PipelineListOptions
unfolding clamp_pagination nonempty_ref
list_options q = record {
  ref = nonempty_ref q.ref;
  status = q.status;
  page = (clamp_pagination q.page q.per_page).0;
  per_page = (clamp_pagination q.page q.per_page).1;
}

-- `json.Unmarshal` of the variables is a parameter.
module _ (unmarshal : GoString → Result (List PipelineVariable)) where
  unfoldable pub parse_variables : Option GoString → Result (List PipelineVariable)
  parse_variables none = ok []
  parse_variables (some s) = if nonempty s then unmarshal s else ok []

  module _ {Float32 S : Type 0} (service : PipelineService Float32 S) where
    unfoldable pub trigger_pipeline : TriggerParams → S → Response PipelineResponse × S
    unfolding parse_variables numbered error_text
    trigger_pipeline q s =
        if not (nonempty q.git_server)
        then (numbered 400 (str "gitServer parameter is required"), s)
        else if not (nonempty q.project)
        then (numbered 400 (str "project parameter is required"), s)
        else if not (nonempty q.ref)
        then (numbered 400 (str "ref parameter is required"), s)
        else (elim (parse_variables q.variables) [
          | err e ↦ (
            numbered 400 (
                str "invalid variables JSON format (expected array of {key, value, variableType}): "
                ++ error_text e),
            s,
          )
          | ok variables ↦
              let result = service.trigger q.git_server q.project q.ref variables s in
              (answer 201 (λ r. r) result.0, result.1)
        ])

module _ {Float32 S : Type 0} (service : PipelineService Float32 S) where
  unfoldable pub list_pipelines : ListParams → S → Response PipelinesResponse × S
  unfolding list_options
  list_pipelines q s =
      let result = service.list q.git_server q.project (list_options q) s in
      (answer 200 (λ r. r) result.0, result.1)

  unfoldable pub list_pipeline_jobs : IdParams → S → Response (List (PipelineJob Float32)) × S
  unfolding atoi numbered
  list_pipeline_jobs q s = elim (atoi q.id) [
    | none ↦ (numbered 400 (str "pipelineId must be a numeric value"), s)
    | some n ↦
        let result = service.jobs q.git_server q.project n s in
        (answer 200 (λ r. r) result.0, result.1)
  ]

  unfoldable pub get_pipeline_job_trace : IdParams → S → Response JobTraceResponse × S
  unfolding atoi numbered
  get_pipeline_job_trace q s = elim (atoi q.id) [
    | none ↦ (numbered 400 (str "jobId must be a numeric value"), s)
    | some n ↦
        let result = service.trace q.git_server q.project n s in
        (
          answer 200
              (λ t. record { job_id = q.id; content = t.content; truncated = some t.truncated })
              result.0,
          result.1,
        )
  ]
