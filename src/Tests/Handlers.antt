-- ===== src/Tests/Handlers.antt =====
-- Runs of the caches of internal/cache and the handlers of internal/api.
use gitfusion.Prelude.{
  ◌≡◌, refl, true, false, ◌||◌, none, some, List, [], ◌∷◌, All, GoString, str, nonempty, contains,
  eq_str, nat_eq, pos, negsuc, itoa, leb_ℤ, count, arith, if◌then◌else◌,
}
use gitfusion.GoError.{
  GoError, Result, ok, err, gitlab_response, is_error, is_gitlab_not_found, gitlab_status,
}
use gitfusion.Models.{PipelineVariable, PipelineResponse}
use gitfusion.Cache.Assoc.{assoc_client, assoc_get}
use gitfusion.Cache.Terminal.{
  terminal_get, terminal_set, terminal_invalidate, terminal_get-terminal_invalidate,
  terminal_get-live_write,
}
use gitfusion.Cache.Manager.{JobTrace, invalidate_cache, supported_endpoints}
use gitfusion.Cache.Manager.Laws.{IsInvalidated, invalidate_cache-IsInvalidated}
use gitfusion.Services.Keys.{NoBar, join_bar-injective}
use gitfusion.GitLab.Convert.{map_jobs_error, map_trace_status, has_status}
use gitfusion.Api.Pagination.{clamp_pagination, clamp_pagination-bounds, clamp_pagination-in_range}
use gitfusion.Api.Numbers.{atoi, atoi-itoa}
use gitfusion.Api.Responses.{status_code, pipeline_error, success}
use gitfusion.Api.Pipelines.{
  PipelineService, TriggerParams, parse_variables, trigger_pipeline, list_pipeline_jobs,
}
use gitfusion.Api.Catalog.{handle_invalidate}
use gitfusion.Api.Laws.{
  gitlab_failure_status, status-map_jobs_error, status-map_trace_status, status-handle_invalidate,
  list_pipeline_jobs-itoa, trigger_pipeline-created,
}
use gitfusion.Tests.Data.{all_clients, full_manager, trace, no_pipelines, job}

invalidate_cache-IsInvalidated_example :
    IsInvalidated all_clients
      (str "pipelines")
      full_manager
      (invalidate_cache all_clients (str "pipelines") full_manager).1
invalidate_cache-IsInvalidated_example =
    invalidate_cache-IsInvalidated all_clients (str "pipelines") full_manager

terminal_get-terminal_invalidate_example :
    terminal_get
      (assoc_client JobTrace)
      (str "t")
      (terminal_invalidate (assoc_client JobTrace) full_manager.job_trace)
    ≡ none
terminal_get-terminal_invalidate_example =
    terminal_get-terminal_invalidate (assoc_client JobTrace) (str "t") full_manager.job_trace

done-found : (assoc_client JobTrace).get (str "u") full_manager.job_trace.done ≡ some trace
unfolding assoc_get eq_str
done-found = refl

terminal_get-live_write_example :
    terminal_get (assoc_client JobTrace) (str "u") (
      terminal_set
        (assoc_client JobTrace)
        (str "u")
        (record { content = []; truncated = false })
        false
        full_manager.job_trace)
    ≡ some trace
terminal_get-live_write_example =
    terminal_get-live_write (assoc_client JobTrace) (str "u") (str "u")
      (record { content = []; truncated = false }) trace full_manager.job_trace done-found

plain_fields : All NoBar (str "gl" ∷ str "app" ∷ [])
unfolding count
plain_fields = (refl, (refl, tt))

join_bar-injective_example : str "gl" ∷ str "app" ∷ [] ≡ str "gl" ∷ str "app" ∷ []
join_bar-injective_example =
    join_bar-injective (str "gl") (str "gl") (str "app" ∷ []) (str "app" ∷ []) refl plain_fields
      refl

clamp_pagination-bounds_example :
    (leb_ℤ (pos 1) (clamp_pagination (some (negsuc 3)) (some (pos 500))).0 ≡ true)
    × (leb_ℤ (pos 1) (clamp_pagination (some (negsuc 3)) (some (pos 500))).1 ≡ true)
    × (leb_ℤ (clamp_pagination (some (negsuc 3)) (some (pos 500))).1 (pos 100) ≡ true)
clamp_pagination-bounds_example = clamp_pagination-bounds (some (negsuc 3)) (some (pos 500))

clamp_pagination-in_range_example :
    clamp_pagination (some (pos 7)) (some (pos 50)) ≡ (pos 7, pos 50)
clamp_pagination-in_range_example = clamp_pagination-in_range (pos 7) (pos 50) refl refl refl

atoi-itoa_example : atoi (itoa (negsuc 41)) ≡ some (negsuc 41)
atoi-itoa_example = atoi-itoa (negsuc 41) (omega arith) (omega arith)

abbrev denied : GoError
denied = gitlab_response (some 403) (str "forbidden")

status-map_jobs_error_example :
    status_code (pipeline_error {A = Unit} (map_jobs_error denied (str "me/app") (pos 3)))
    ≡ gitlab_failure_status
        (is_gitlab_not_found denied || has_status (gitlab_status denied) 404)
        (has_status (gitlab_status denied) 401 || has_status (gitlab_status denied) 403)
unfolding is_error
status-map_jobs_error_example = status-map_jobs_error denied (str "me/app") (pos 3) (λ s. refl)

status-map_trace_status_example :
    status_code (pipeline_error {A = Unit} (map_trace_status 403 (str "me/app") (pos 7))) ≡ 401
status-map_trace_status_example = status-map_trace_status 403 (str "me/app") (pos 7)

status-handle_invalidate_example :
    status_code (handle_invalidate all_clients (str "tags") full_manager).0
    ≡ (if contains supported_endpoints (str "tags") then 200 else 500)
status-handle_invalidate_example = status-handle_invalidate all_clients (str "tags") full_manager

-- A service whose state counts the pipelines triggered.
abbrev service : PipelineService Unit (List GoString)
service = record {
  trigger = λ server project ref variables s. (
    ok (record { id = pos 1; ref = ref; sha = none; status = str "created"; web_url = [] }),
    ref ∷ s,
  );
  list = λ server project opts s. (ok no_pipelines, s);
  jobs = λ server project id s. (ok (job (itoa id) (str "success") ∷ []), s);
  trace = λ server project id s. (ok trace, s);
}

list_pipeline_jobs-itoa_example :
    list_pipeline_jobs service
      (record { git_server = str "gl"; project = str "me/app"; id = itoa (pos 12) })
      []
    ≡ (success 200 (job (itoa (pos 12)) (str "success") ∷ []), [])
list_pipeline_jobs-itoa_example =
    list_pipeline_jobs-itoa service (str "gl") (str "me/app") (pos 12) [] (omega arith)
      (omega arith)

abbrev trigger_params : TriggerParams
trigger_params = record {
  git_server = str "gl";
  project = str "me/app";
  ref = str "main";
  variables = none;
}

abbrev no_json : GoString → Result (List PipelineVariable)
no_json s = err (GoError.message s)

triggered : status_code (trigger_pipeline no_json service trigger_params []).0 ≡ 201
unfolding trigger_pipeline
triggered = refl

trigger_pipeline-created_example :
    (nonempty trigger_params.git_server ≡ true)
    × (nonempty trigger_params.project ≡ true)
    × (nonempty trigger_params.ref ≡ true)
    × (variables : List PipelineVariable) × (parse_variables no_json trigger_params.variables
        ≡ ok variables)
    × (r : PipelineResponse) × ((service.trigger trigger_params.git_server trigger_params.project
          trigger_params.ref variables []).0
        ≡ ok r)
trigger_pipeline-created_example =
    trigger_pipeline-created service no_json trigger_params [] triggered
