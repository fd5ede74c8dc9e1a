-- ===== src/Tests/WorkflowRuns.antt =====
-- Runs of internal/services/github/github_pipelines.go on a GitHub that filters as documented.
use mathlib.Core.Path.{subst}
use gitfusion.Prelude.{
  ◌≡◌, refl, sym, ap, inl, inr, true, none, some, List, [], ◌∷◌, All, GoString, str, nonempty, ℤ,
  pos, ◌==◌, nat_eq, string_eq, eq_str, eq_str_iff, Bool-cases, if◌then◌else◌,
}
use gitfusion.GoError.{Result, ok, ok-injective}
use gitfusion.Common.{split_project}
use gitfusion.Models.{PipelineStatus, PipelinesResponse, PipelineListOptions, status_string}
use gitfusion.GitHub.Types.{WorkflowRun}
use gitfusion.GitHub.Pipelines.{
  RunsQuery, runs_query, list_pipelines, IsSelected, list_pipelines-of_status,
}

-- A GitHub with one completed and one queued run, which answers as the filter says.
abbrev run_with : GoString → GoString → WorkflowRun
run_with status conclusion = record {
  id = some (pos 1);
  status = some status;
  conclusion = some conclusion;
  head_branch = none;
  head_sha = none;
  html_url = none;
  created_at = none;
  updated_at = none;
  repository = none;
  event = none;
}

abbrev one_run : RunsQuery → Result (List WorkflowRun × ℤ)
one_run q =
    if q.status == str "failure"
    then ok (run_with (str "completed") (str "failure") ∷ [], pos 1)
    else if q.status == str "queued"
    then ok (run_with (str "queued") [] ∷ [], pos 1)
    else ok ([], pos 0)

runs_equal :
    {a b : List WorkflowRun} {m n : ℤ}
    → ◌≡◌ {A = Result (List WorkflowRun × ℤ)} (ok (a, m)) (ok (b, n))
    → a ≡ b
runs_equal e = ap (λ x. x.0) (ok-injective e)

one_run-honest :
    (q : RunsQuery) (found : List WorkflowRun) (n : ℤ)
    → nonempty q.status ≡ true
    → one_run q ≡ ok (found, n)
    → All (IsSelected q.status) found
unfolding eq_str
one_run-honest q found n set got = elim (Bool-cases (q.status == str "failure")) [
  | inl e ↦
      subst (All (IsSelected q.status)) (runs_equal (rw e at got))
        ((inr (refl, refl), inr (sym ((eq_str_iff q.status (str "failure")).0 e))), tt)
  | inr e ↦ elim (Bool-cases (q.status == str "queued")) [
    | inl f ↦
        subst (All (IsSelected q.status)) (runs_equal (rw (e, f) at got))
          ((inl (refl, refl), inl (sym ((eq_str_iff q.status (str "queued")).0 f))), tt)
    | inr f ↦ subst (All (IsSelected q.status)) (runs_equal (rw (e, f) at got)) tt
  ]
]

me_split : split_project (λ s. s) (str "me/app") ≡ ok (str "me", str "app")
unfolding split_project
me_split = refl

abbrev failed_only : PipelineListOptions
failed_only = record { ref = none; status = some (str "failed"); page = pos 1; per_page = pos 20 }

failed_name : failed_only.status ≡ some (status_string PipelineStatus.failed)
unfolding status_string
failed_name = refl

failed_run :
    one_run (runs_query (str "me") (str "app") failed_only)
    ≡ ok (run_with (str "completed") (str "failure") ∷ [], pos 1)
unfolding runs_query eq_str
failed_run = refl

list_pipelines-of_status_example :
    (r : PipelinesResponse) × (list_pipelines (λ s. s) one_run (str "me/app") failed_only ≡ ok r)
    × All (λ p. p.status ≡ PipelineStatus.failed) r.items
list_pipelines-of_status_example =
    list_pipelines-of_status (λ s. s) one_run (str "me/app") (str "me") (str "app") failed_only
      PipelineStatus.failed (run_with (str "completed") (str "failure") ∷ []) (pos 1) one_run-honest
      failed_name me_split failed_run
