-- ===== src/GitLab/Pipelines.antt =====
-- `ListPipelines` and `TriggerPipeline` of internal/services/gitlab/gitlab.go.
use gitfusion.Prelude.{
  ◌≡◌, ap, ◌∙◌, Option, none, some, List, [], ◌∷◌, ◌++◌, All, All-map, map, GoString, str, nonempty,
  ℤ, pos, itoa, ◌==◌, int_eq, if◌then◌else◌,
}
use gitfusion.GoError.{Result, ok}
use gitfusion.Models.{
  Time, zero_time, Pipeline, PipelineStatus, PipelinesResponse, PipelineListOptions,
  PipelineResponse, PipelineVariable, status_string,
}
use gitfusion.GitLab.Convert.{
  normalize_pipeline_status, normalize_pipeline_source, map_status_to_gitlab,
  map_status-normalize_pipeline_status,
}
use gitfusion.GitLab.Calls.{Answer, answered, call_error, value_of, with_client}

pub record GitlabPipeline : Type 0 where
  pub id : ℤ
  pub project_id : ℤ
  pub status : GoString
  pub source : GoString
  pub ref : GoString
  pub sha : GoString
  pub web_url : GoString
  pub created_at : Option Time
  pub updated_at : Option Time

-- `gitlab.ListProjectPipelinesOptions`
pub record PipelinesQuery : Type 0 where
  pub page : ℤ
  pub per_page : ℤ
  pub ref : Option GoString
  pub status : Option GoString

abbrev pub created_or_zero : Option Time → Time
created_or_zero none = zero_time
created_or_zero (some t) = t

unfoldable pub convert_pipeline : GitlabPipeline → Pipeline
unfolding itoa normalize_pipeline_status normalize_pipeline_source
convert_pipeline p = record {
  created_at = created_or_zero p.created_at;
  id = itoa p.id;
  project_id = if p.project_id == pos 0 then none else some (itoa p.project_id);
  ref = p.ref;
  sha = p.sha;
  source = if nonempty p.source then some (normalize_pipeline_source p.source) else none;
  status = normalize_pipeline_status p.status;
  updated_at = p.updated_at;
  web_url = p.web_url;
}

abbrev pub status_query : Option GoString → Option GoString
status_query none = none
status_query (some status) = map_status_to_gitlab status

abbrev pub pipelines_query : PipelineListOptions → PipelinesQuery
pipelines_query opts = record {
  page = opts.page;
  per_page = opts.per_page;
  ref = opts.ref;
  status = status_query opts.status;
}

-- `client.Pipelines.ListProjectPipelines`, by project and query.
abbrev pub ListPipelinesCall : Type 0
ListPipelinesCall = GoString → PipelinesQuery → Answer (List GitlabPipeline)

abbrev pub pipelines_page : PipelineListOptions → List GitlabPipeline → ℤ → PipelinesResponse
pipelines_page opts pipelines total = record {
  items = map convert_pipeline pipelines;
  pagination = record { page = some opts.page; per_page = some opts.per_page; total = total };
}

unfoldable pub list_pipelines :
    Result ListPipelinesCall → GoString → PipelineListOptions → Result PipelinesResponse
unfolding convert_pipeline map_status_to_gitlab call_error
list_pipelines client project opts =
    with_client (str "failed to create gitlab client: ")
      (λ list.
        value_of (str "project " ++ project ++ str ": ")
          (str "failed to list pipelines for " ++ project ++ str ": ") (pipelines_page opts)
          (list project (pipelines_query opts)))
      client

-- `client.Pipelines.CreatePipeline`; a nil pointer to variables is `none`.
pub record CreateQuery : Type 0 where
  pub ref : GoString
  pub variables : Option (List PipelineVariable)

abbrev CreateCall : Type 0
CreateCall = GoString → CreateQuery → Answer GitlabPipeline

-- `convertToPipelineVariables`
abbrev variables_query : List PipelineVariable → Option (List PipelineVariable)
variables_query [] = none
variables_query (v ∷ vs) = some (v ∷ vs)

abbrev pipeline_response : GitlabPipeline → ℤ → PipelineResponse
pipeline_response p total = record {
  id = p.id;
  ref = p.ref;
  sha = if nonempty p.sha then some p.sha else none;
  status = p.status;
  web_url = p.web_url;
}

unfoldable pub trigger_pipeline :
    Result CreateCall → GoString → GoString → List PipelineVariable → Result PipelineResponse
unfolding call_error
trigger_pipeline client project ref variables =
    with_client (str "failed to create gitlab client: ")
      (λ create.
        value_of (str "project " ++ project ++ str " or ref " ++ ref ++ str ": ")
          (str "create pipeline for " ++ project ++ str " ref " ++ ref ++ str ": ")
          pipeline_response
          (create project (record { ref = ref; variables = variables_query variables })))
      client

-- If GitLab's list has only pipelines of the status that it is asked for, then a list filtered by a
-- unified status has only pipelines of that unified status.
pub list_pipelines-filtered :
    (list : ListPipelinesCall) (project : GoString) (opts : PipelineListOptions)
    (s : PipelineStatus) (pipelines : List GitlabPipeline) (total : ℤ)
    → ((q : PipelinesQuery) (v : GoString) (found : List GitlabPipeline) (n : ℤ)
        → q.status ≡ some v
        → list project q ≡ answered found n
        → All (λ p. p.status ≡ v) found)
    → opts.status ≡ some (status_string s)
    → list project (pipelines_query opts) ≡ answered pipelines total
    → (r : PipelinesResponse) × (list_pipelines (ok list) project opts ≡ ok r)
      × All (λ p. p.status ≡ s) r.items
unfolding list_pipelines
list_pipelines-filtered list project opts s pipelines total honest asked got =
    let (v, filter, back) = map_status-normalize_pipeline_status s in
    (
      pipelines_page opts pipelines total,
      ap
          (value_of (str "project " ++ project ++ str ": ")
            (str "failed to list pipelines for " ++ project ++ str ": ") (pipelines_page opts))
          got,
      All-map convert_pipeline (λ p. p.status ≡ v) (λ p. p.status ≡ s) pipelines
          (λ p e. ap normalize_pipeline_status e ∙ back)
          (honest (pipelines_query opts) v pipelines total (ap status_query asked ∙ filter) got),
    )
