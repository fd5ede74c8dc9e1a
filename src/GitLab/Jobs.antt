-- ===== src/GitLab/Jobs.antt =====
-- `ListPipelineJobs` and `mapGitLabJob` of internal/services/gitlab/gitlab.go.
pub mod Laws
use gitfusion.Prelude.{
  ℕ, suc, ◌≡◌, Bool, true, false, Option, none, some, List, [], ◌∷◌, ◌++◌, map, length, leb,
  GoString, nonempty, ℤ, itoa, ltb_ℤ, if◌then◌else◌,
}
use gitfusion.GoError.{GoError, Result, ok, err, ◌>>=◌}
use gitfusion.Models.{Time, PipelineJob}
use gitfusion.GitLab.Convert.{map_jobs_error}

pub record GitlabJob (Float64 : Type 0) : Type 0 where
  pub id : ℤ
  pub name : GoString
  pub stage : GoString
  pub status : GoString
  pub ref : GoString
  pub web_url : GoString
  pub allow_failure : Bool
  pub duration : Float64
  pub created_at : Option Time
  pub started_at : Option Time
  pub finished_at : Option Time
  pub failure_reason : GoString

abbrev pub max_jobs_total : ℕ
max_jobs_total = 500

abbrev pub set_if_nonempty : GoString → Option GoString
set_if_nonempty s = if nonempty s then some s else none

-- The two floating-point types, the test `!= 0` and the conversion `float32(…)` are parameters.
module _ {Float64 Float32 : Type 0} (is_nonzero : Float64 → Bool)
    (to_float32 : Float64 → Float32) where
  unfoldable pub map_job : GitlabJob Float64 → PipelineJob Float32
  unfolding itoa
  map_job j = record {
    allow_failure = some j.allow_failure;
    created_at = j.created_at;
    duration = if is_nonzero j.duration then some (to_float32 j.duration) else none;
    failure_reason = set_if_nonempty j.failure_reason;
    finished_at = j.finished_at;
    id = itoa j.id;
    name = j.name;
    ref = set_if_nonempty j.ref;
    stage = j.stage;
    started_at = j.started_at;
    status = j.status;
    web_url = set_if_nonempty j.web_url;
  }

  -- The loop over the client's iterator, which yields jobs and errors. It stops at the cap.
  unfoldable pub collect_jobs :
      GoString
      → ℤ
      → List (Result (GitlabJob Float64))
      → List (GitlabJob Float64)
      → Result (List (GitlabJob Float64))
  unfolding map_jobs_error
  collect_jobs project id [] raw = ok raw
  collect_jobs project id (err e ∷ es) raw = err (map_jobs_error e project id)
  collect_jobs project id (ok j ∷ es) raw =
      let rest = collect_jobs project id es (raw ++ j ∷ []) in
      if leb max_jobs_total (length (raw ++ j ∷ [])) then ok (raw ++ j ∷ []) else rest

  -- sort.SliceStable by the numeric ID: equal IDs keep their order.
  unfoldable pub insert_by_id :
      GitlabJob Float64 → List (GitlabJob Float64) → List (GitlabJob Float64)
  insert_by_id j [] = j ∷ []
  insert_by_id j (x ∷ xs) =
      let later = insert_by_id j xs in if ltb_ℤ x.id j.id then x ∷ later else j ∷ x ∷ xs

  unfoldable pub sort_by_id : List (GitlabJob Float64) → List (GitlabJob Float64)
  unfolding insert_by_id
  sort_by_id [] = []
  sort_by_id (j ∷ js) = insert_by_id j (sort_by_id js)

  -- The client's construction can fail; its iterator yields jobs and errors.
  unfoldable pub list_pipeline_jobs :
      GoString
      → ℤ
      → Result (List (Result (GitlabJob Float64)))
      → Result (List (PipelineJob Float32))
  unfolding collect_jobs sort_by_id map_job
  list_pipeline_jobs project id client = do
    events ← client
    raw ← collect_jobs project id events []
    ok (map map_job (sort_by_id raw))
