-- ===== src/GitLab/Jobs/Laws.antt =====
-- The jobs that `ListPipelineJobs` of internal/services/gitlab/gitlab.go returns.
use mathlib.Core.List.Perm
use mathlib.Core.List.{Perm}
use gitfusion.Prelude.{
  ℕ, zero, suc, ◌+◌, ◌<◌, ◌≡◌, refl, ap, sym, Bool, true, List, [], ◌∷◌, ◌++◌, append_assoc,
  append-nil, map, length, length-append, take, All, GoString, ℤ, ltb_ℤ, leb_ℤ, Bool-cases, inl,
  inr, arith,
}
use gitfusion.GoError.{GoError, Result, ok, err}
use gitfusion.GitLab.Convert.{map_jobs_error}
use gitfusion.GitLab.Jobs.{
  GitlabJob, max_jobs_total, map_job, collect_jobs, insert_by_id, sort_by_id, list_pipeline_jobs,
}

-- Each ID is at most those after it.
abbrev pub IsSorted : {F : Type 0} → List (GitlabJob F) → Type 0
IsSorted [] = Unit
IsSorted (j ∷ js) = All (λ k. leb_ℤ j.id k.id ≡ true) js × IsSorted js

module _ {Float64 Float32 : Type 0} (is_nonzero : Float64 → Bool)
    (to_float32 : Float64 → Float32) where
  abbrev Job : Type 0
  Job = GitlabJob Float64

  All-le :
      (j x : Job) (xs : List Job)
      → leb_ℤ j.id x.id ≡ true
      → All (λ k. leb_ℤ x.id k.id ≡ true) xs
      → All (λ k. leb_ℤ j.id k.id ≡ true) xs
  All-le j x [] h k = tt
  All-le j x (y ∷ ys) h k = (ground (arith, k.0), All-le j x ys h k.1)

  insert-All :
      (x j : Job) (xs : List Job)
      → leb_ℤ x.id j.id ≡ true
      → All (λ k. leb_ℤ x.id k.id ≡ true) xs
      → All (λ k. leb_ℤ x.id k.id ≡ true) (insert_by_id is_nonzero to_float32 j xs)
  unfolding insert_by_id
  insert-All x j [] h k = (h, tt)
  insert-All x j (y ∷ ys) h k = elim (Bool-cases (ltb_ℤ y.id j.id)) [
    | inl e ↦ rw e (k.0, insert-All x j ys h k.1)
    | inr e ↦ rw e (h, k)
  ]

  insert-IsSorted :
      (j : Job) (xs : List Job) → IsSorted xs → IsSorted (insert_by_id is_nonzero to_float32 j xs)
  unfolding insert_by_id
  insert-IsSorted j [] h = (tt, tt)
  insert-IsSorted j (x ∷ xs) h = elim (Bool-cases (ltb_ℤ x.id j.id)) [
    | inl e ↦ rw e (insert-All x j xs (ground arith) h.0, insert-IsSorted j xs h.1)
    | inr e ↦ let le : leb_ℤ j.id x.id ≡ true = ground arith in rw e ((le, All-le j x xs le h.0), h)
  ]

  pub sort_by_id-IsSorted : (xs : List Job) → IsSorted (sort_by_id is_nonzero to_float32 xs)
  unfolding sort_by_id
  sort_by_id-IsSorted [] = tt
  sort_by_id-IsSorted (j ∷ js) =
      insert-IsSorted j (sort_by_id is_nonzero to_float32 js) (sort_by_id-IsSorted js)

  insert_perm : (j : Job) (xs : List Job) → Perm (insert_by_id is_nonzero to_float32 j xs) (j ∷ xs)
  unfolding insert_by_id
  insert_perm j [] = Perm.refl (j ∷ [])
  insert_perm j (x ∷ xs) = elim (Bool-cases (ltb_ℤ x.id j.id)) [
    | inl e ↦ rw e (Perm.trans (Perm.cons x (insert_perm j xs)) (Perm.swap j x xs))
    | inr e ↦ rw e (Perm.refl (j ∷ x ∷ xs))
  ]

  pub sort_by_id_perm : (xs : List Job) → Perm (sort_by_id is_nonzero to_float32 xs) xs
  unfolding sort_by_id
  sort_by_id_perm [] = Perm.refl []
  sort_by_id_perm (j ∷ js) =
      Perm.trans (insert_perm j (sort_by_id is_nonzero to_float32 js))
        (Perm.cons j (sort_by_id_perm js))

  -- Without an error the loop collects the jobs up to the cap, of which `suc d` are left.
  collect_jobs-take :
      (project : GoString) (id : ℤ) (d : ℕ) (jobs raw : List Job)
      → max_jobs_total ≡ length raw + suc d
      → collect_jobs is_nonzero to_float32 project id (map ok jobs) raw
        ≡ ok (raw ++ take (suc d) jobs)
  unfolding collect_jobs
  collect_jobs-take project id d [] raw h = ap ok (sym (append-nil raw))
  collect_jobs-take project id zero (j ∷ js) raw h = ground (arith, length-append raw (j ∷ []))
  collect_jobs-take project id (suc d) (j ∷ js) raw h =
      let size = length-append raw (j ∷ []) in
      ground (
        arith,
        size,
        collect_jobs-take project id d js (raw ++ j ∷ []) (omega (arith, size)),
        append_assoc raw (j ∷ []) (take (suc d) js),
      )

  collect_jobs_error :
      (project : GoString) (id : ℤ) (jobs : List Job) (e : GoError) (later : List (Result Job))
      (raw : List Job)
      → length raw + length jobs < max_jobs_total
      → collect_jobs is_nonzero to_float32 project id (map ok jobs ++ err e ∷ later) raw
        ≡ err (map_jobs_error e project id)
  unfolding collect_jobs
  collect_jobs_error project id [] e later raw h = refl
  collect_jobs_error project id (j ∷ js) e later raw h =
      let size = length-append raw (j ∷ []) in
      ground (
        arith,
        size,
        collect_jobs_error project id js e later (raw ++ j ∷ []) (omega (arith, size)),
      )

  -- If the client yields jobs and no error, the answer is a sorted arrangement of the first 500 of
  -- them at most, each converted.
  pub list_pipeline_jobs_lem :
      (project : GoString) (id : ℤ) (jobs : List Job)
      → (sorted : List Job) × (list_pipeline_jobs is_nonzero to_float32 project id
            (ok (map ok jobs))
          ≡ ok (map (map_job is_nonzero to_float32) sorted))
        × IsSorted sorted
        × Perm sorted (take max_jobs_total jobs)
  unfolding list_pipeline_jobs
  list_pipeline_jobs_lem project id jobs = (
    sort_by_id is_nonzero to_float32 (take max_jobs_total jobs),
    rw (collect_jobs-take project id 499 jobs [] refl),
    sort_by_id-IsSorted (take max_jobs_total jobs),
    sort_by_id_perm (take max_jobs_total jobs),
  )

  -- If the client yields an error after fewer than 500 jobs, that error is the answer, mapped, and
  -- no job is returned.
  pub list_pipeline_jobs_error :
      (project : GoString) (id : ℤ) (jobs : List Job) (e : GoError) (later : List (Result Job))
      → length jobs < max_jobs_total
      → list_pipeline_jobs is_nonzero to_float32 project id (ok (map ok jobs ++ err e ∷ later))
        ≡ err (map_jobs_error e project id)
  unfolding list_pipeline_jobs
  list_pipeline_jobs_error project id jobs e later h =
      rw (collect_jobs_error project id jobs e later [] (omega (arith, h)))
