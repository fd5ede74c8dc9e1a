-- ===== src/GitHub/Pipelines.antt =====
-- Listing workflow runs: internal/services/github/github_pipelines.go.
use mathlib.Core.Path.{subst}
use gitfusion.Prelude.{
  arith, ◌≡◌, refl, ap, sym, ◌∙◌, true, false, ◌⊎◌, inl, inr, Option, none, some, List, [], ◌∷◌,
  ◌++◌, All, All-map, map, GoString, str, contains, string_eq, nat_eq, ◌==◌, int_eq, ℤ, pos, itoa,
  nonempty, if◌then◌else◌, eq_str,
}
use gitfusion.Common.{value_or_empty, split_project}
use gitfusion.GoError.{Result, ok, err, message, ◌>>=◌}
use gitfusion.Models.{
  Pipeline, PipelineStatus, PipelinesResponse, PipelineListOptions, status_string,
}
use gitfusion.GitHub.Types.{GithubRepository, WorkflowRun}
use gitfusion.GitHub.Convert.{
  int_or_zero, time_or_zero, github_error, normalize_run_status, normalize_run_event,
  map_status_to_github,
}

project_id_of : Option GithubRepository → Option GoString
unfolding itoa
project_id_of none = none
project_id_of (some repo) =
    if int_or_zero repo.id == pos 0 then none else some (itoa (int_or_zero repo.id))

unfoldable pub convert_run : WorkflowRun → Pipeline
unfolding itoa normalize_run_status normalize_run_event project_id_of
convert_run run = record {
  created_at = time_or_zero run.created_at;
  id = itoa (int_or_zero run.id);
  project_id = project_id_of run.repository;
  ref = value_or_empty run.head_branch;
  sha = value_or_empty run.head_sha;
  source =
      if nonempty (value_or_empty run.event)
      then some (normalize_run_event (value_or_empty run.event))
      else none;
  status = normalize_run_status (value_or_empty run.status) (value_or_empty run.conclusion);
  updated_at = run.updated_at;
  web_url = value_or_empty run.html_url;
}

-- The options of the API call: the branch and the status are empty where they are not set.
pub record RunsQuery : Type 0 where
  pub owner : GoString
  pub repo : GoString
  pub page : ℤ
  pub per_page : ℤ
  pub branch : GoString
  pub status : GoString

status_filter : Option GoString → GoString
unfolding map_status_to_github
status_filter none = []
status_filter (some status) = value_or_empty (map_status_to_github status)

unfoldable pub runs_query : GoString → GoString → PipelineListOptions → RunsQuery
unfolding status_filter
runs_query owner repo opts = record {
  owner = owner;
  repo = repo;
  page = opts.page;
  per_page = opts.per_page;
  branch = value_or_empty opts.ref;
  status = status_filter opts.status;
}

-- `client.Actions.ListRepositoryWorkflowRuns` gives the runs and their total count.
module _ (quote : GoString → GoString) (list_runs : RunsQuery → Result (List WorkflowRun × ℤ)) where
  runs_response :
      GoString → PipelineListOptions → Result (List WorkflowRun × ℤ) → Result PipelinesResponse
  unfolding convert_run github_error
  runs_response project opts (err e) = err (
      github_error (str "project " ++ project ++ str ": ")
        (str "failed to list pipelines for " ++ project ++ str ": ") e)
  runs_response project opts (ok (runs, total)) = ok (record {
    items = map convert_run runs;
    pagination = record { page = some opts.page; per_page = some opts.per_page; total = total };
  })

  unfoldable pub list_pipelines : GoString → PipelineListOptions → Result PipelinesResponse
  unfolding split_project runs_response runs_query
  list_pipelines project opts = do
    parts ← split_project quote project
    runs_response project opts (list_runs (runs_query parts.0 parts.1 opts))

unfoldable pub trigger_pipeline : {A : Type 0} → Result A
trigger_pipeline = err (message (str "trigger pipeline is not supported for GitHub"))

-- The statuses of a run that is not completed, and the conclusions of one that is, as GitHub's
-- documentation lists them.
abbrev pub unfinished_statuses : List GoString
unfinished_statuses =
    str "queued" ∷ str "in_progress" ∷ str "waiting" ∷ str "requested" ∷ str "pending" ∷ []

abbrev pub conclusions : List GoString
conclusions =
    str "success"
    ∷ str "failure"
    ∷ str "neutral"
    ∷ str "cancelled"
    ∷ str "skipped"
    ∷ str "timed_out"
    ∷ str "action_required"
    ∷ str "stale"
    ∷ str "startup_failure"
    ∷ []

-- The states of GitHub's runs: a conclusion is there if and only if the run is completed.
abbrev pub IsRunState : GoString → GoString → Type 0
IsRunState status conclusion =
    ((contains unfinished_statuses status ≡ true) × (conclusion ≡ []))
    ⊎ ((status ≡ str "completed") × (contains conclusions conclusion ≡ true))

-- GitHub's filter: "workflow runs with the check run status or conclusion that you specify".
abbrev pub IsSelected : GoString → WorkflowRun → Type 0
IsSelected v run =
    IsRunState (value_or_empty run.status) (value_or_empty run.conclusion)
    × ((value_or_empty run.status ≡ v) ⊎ (value_or_empty run.conclusion ≡ v))

-- The filter value of a unified status is the status of unfinished runs or a conclusion, and a run with
-- it has that unified status.
abbrev IsFilterOf : PipelineStatus → GoString → Type 0
IsFilterOf s v =
    (map_status_to_github (status_string s) ≡ some v)
    × (nonempty v ≡ true)
    × ((v == str "completed") ≡ false)
    × (contains unfinished_statuses v ≡ true → normalize_run_status v [] ≡ s)
    × (contains conclusions v ≡ true → normalize_run_status (str "completed") v ≡ s)

filter_of : (s : PipelineStatus) → (v : GoString) × IsFilterOf s v
unfolding map_status_to_github status_string normalize_run_status eq_str
filter_of PipelineStatus.cancelled = (str "cancelled", (refl, refl, refl, λ h. cc, λ h. refl))
filter_of PipelineStatus.failed = (str "failure", (refl, refl, refl, λ h. cc, λ h. refl))
filter_of PipelineStatus.manual = (str "action_required", (refl, refl, refl, λ h. cc, λ h. refl))
filter_of PipelineStatus.pending = (str "queued", (refl, refl, refl, λ h. refl, λ h. cc))
filter_of PipelineStatus.running = (str "in_progress", (refl, refl, refl, λ h. refl, λ h. cc))
filter_of PipelineStatus.skipped = (str "skipped", (refl, refl, refl, λ h. cc, λ h. refl))
filter_of PipelineStatus.success = (str "success", (refl, refl, refl, λ h. cc, λ h. refl))

selected-normalize :
    (s : PipelineStatus) (v : GoString) (run : WorkflowRun)
    → IsFilterOf s v
    → IsSelected v run
    → (convert_run run).status ≡ s
unfolding convert_run eq_str
selected-normalize s v run (a, b, c, d, f) (inl (going, no_end), inl e) =
    ap (λ z. normalize_run_status z (value_or_empty run.conclusion)) e
    ∙ ap (normalize_run_status v) no_end
    ∙ d (sym (ap (contains unfinished_statuses) e) ∙ going)
selected-normalize s v run (a, b, c, d, f) (inl (going, no_end), inr e) =
    absurd (ground (arith, b, ap nonempty (sym e ∙ no_end)))
selected-normalize s v run (a, b, c, d, f) (inr (done, ended), inl e) =
    absurd (ground (arith, c, ap (λ z. z == str "completed") (sym e ∙ done)))
selected-normalize s v run (a, b, c, d, f) (inr (done, ended), inr e) =
    ap (λ z. normalize_run_status z (value_or_empty run.conclusion)) done
    ∙ ap (normalize_run_status (str "completed")) e
    ∙ f (sym (ap (contains conclusions) e) ∙ ended)

runs_query-status :
    (owner repo : GoString) (opts : PipelineListOptions) (s : PipelineStatus) (v : GoString)
    → opts.status ≡ some (status_string s)
    → map_status_to_github (status_string s) ≡ some v
    → (runs_query owner repo opts).status ≡ v
unfolding runs_query status_filter
runs_query-status owner repo opts s v asked filter =
    ap status_filter asked ∙ ap value_or_empty filter

-- If GitHub's list has only runs in the documented states, and, where a status or conclusion is asked
-- for, only runs that have it, then the runs of a project that are listed for a unified status have that
-- unified status.
pub list_pipelines-of_status :
    (quote : GoString → GoString) (list_runs : RunsQuery → Result (List WorkflowRun × ℤ))
    (project owner repo : GoString) (opts : PipelineListOptions) (s : PipelineStatus)
    (runs : List WorkflowRun) (total : ℤ)
    → ((q : RunsQuery) (found : List WorkflowRun) (n : ℤ)
        → nonempty q.status ≡ true
        → list_runs q ≡ ok (found, n)
        → All (IsSelected q.status) found)
    → opts.status ≡ some (status_string s)
    → split_project quote project ≡ ok (owner, repo)
    → list_runs (runs_query owner repo opts) ≡ ok (runs, total)
    → (r : PipelinesResponse) × (list_pipelines quote list_runs project opts ≡ ok r)
      × All (λ p. p.status ≡ s) r.items
unfolding list_pipelines runs_response
list_pipelines-of_status quote list_runs project owner repo opts s runs total honest asked split
      got =
    let (v, filter) = filter_of s in
    let sent = runs_query-status owner repo opts s v asked filter.0 in
    (
      record {
        items = map convert_run runs;
        pagination = record { page = some opts.page; per_page = some opts.per_page; total = total };
      },
      rw (split, list_pipelines, got) refl,
      All-map convert_run (IsSelected v) (λ p. p.status ≡ s) runs
          (λ run h. selected-normalize s v run filter h)
          (subst (λ z. All (IsSelected z) runs) sent
            (honest (runs_query owner repo opts) runs total (ap nonempty sent ∙ filter.1) got)),
    )
