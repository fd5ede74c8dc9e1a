-- ===== src/Server/Jobs.antt =====
-- The requests to internal/api/server.go for jobs and traces.
use mathlib.Core.Path.{subst}
use gitfusion.Prelude.{◌≡◌, sym, some, Option-cases, inl, inr, List, [], ◌∷◌, GoString, All, ℤ}
use gitfusion.GoError.{Result}
use gitfusion.Models.{PipelineVariable}
use gitfusion.Cache.Manager.{JobTrace}
use gitfusion.Services.Keys.{NoBar}
use gitfusion.Services.PipelineTypes.{number_fields}
use gitfusion.Api.Numbers.{atoi}
use gitfusion.Api.Responses.{numbered}
use gitfusion.Api.Outcomes.{
  answer-eq-success, numbered-not-success, list_pipeline_jobs-refused, list_pipeline_jobs-served,
  get_pipeline_job_trace-refused, get_pipeline_job_trace-served,
}
use gitfusion.Api.Pipelines as PipelineHandler
use gitfusion.Server.Types.{World, Caches, App, list_pipeline_jobs, get_pipeline_job_trace}
use gitfusion.Server.Handle.{handle, pipelines_service}
use gitfusion.Server.Claims.{Claims, IsTruthful}
use gitfusion.Server.Sound.{IsSoundApp}
use gitfusion.Server.Handled.{number_plain, IsHandled}
use gitfusion.Server.JobServices.{number_of, sound_jobs, sound_trace, put_back}

module _ {Float32 : Type 0} (c : Caches Float32) (a : Claims Float32) (w : World Float32)
    (t : IsTruthful c.pipelines a w) (s : App c) (h : IsSoundApp c a s)
    (unmarshal : GoString → Result (List PipelineVariable)) (q : PipelineHandler.IdParams) where
  plain_number :
      (n : ℤ)
      → All NoBar (q.git_server ∷ q.project ∷ [])
      → All NoBar (number_fields (number_of q.git_server q.project n))
  plain_number n p = (p.0, (p.1.0, (number_plain n, tt)))

  served_jobs :
      (id : ℤ)
      → atoi q.id ≡ some id
      → (let out = (pipelines_service c w).jobs q.git_server q.project id s in
          IsHandled c a unmarshal
            (list_pipeline_jobs q)
            (PipelineHandler.answer 200 (λ r. r) out.0, out.1))
  unfolding pipelines_service
  served_jobs id found =
      let i = sound_jobs c a w t s h q.git_server q.project id in
      record {
        state = put_back c a w t s h _ _ i;
        reply = λ n v plain e.
            let (x, same, here) = answer-eq-success 200 (λ r. r) _ n v e in
            (
              id,
              found,
              subst (a.jobs (number_of q.git_server q.project id)) (sym here)
                  (i.answer x same (plain_number id plain)),
            );
      }

  refused_jobs :
      (text : GoString) → IsHandled c a unmarshal (list_pipeline_jobs q) (numbered 400 text, s)
  refused_jobs text = record {
    state = h;
    reply = λ n v plain e. absurd (numbered-not-success 400 text n v e);
  }

  pub handle-list_pipeline_jobs :
      IsHandled c a unmarshal (list_pipeline_jobs q) (handle c w unmarshal (list_pipeline_jobs q) s)
  unfolding handle
  handle-list_pipeline_jobs = elim (Option-cases (atoi q.id)) [
    | inl e ↦
        subst (IsHandled c a unmarshal (list_pipeline_jobs q))
          (sym (list_pipeline_jobs-refused (pipelines_service c w) q s e)) (refused_jobs _)
    | inr (id, e) ↦
        subst (IsHandled c a unmarshal (list_pipeline_jobs q))
          (sym (list_pipeline_jobs-served (pipelines_service c w) q s id e)) (served_jobs id e)
  ]

  served_trace :
      (id : ℤ)
      → atoi q.id ≡ some id
      → (let out = (pipelines_service c w).trace q.git_server q.project id s in
          IsHandled c a unmarshal (get_pipeline_job_trace q) (
            PipelineHandler.answer 200
                (λ x. record { job_id = q.id; content = x.content; truncated = some x.truncated })
                out.0,
            out.1,
          ))
  unfolding pipelines_service
  served_trace id found =
      let i = sound_trace c a w t s h q.git_server q.project id in
      record {
        state = put_back c a w t s h _ _ i;
        reply = λ n v plain e.
            let (x, same, here) =
              answer-eq-success 200
                (λ (x : JobTrace). record {
                  job_id = q.id;
                  content = x.content;
                  truncated = some x.truncated;
                })
                _ n v e in
            (id, x, found, i.answer x same (plain_number id plain), here);
      }

  refused_trace :
      (text : GoString) → IsHandled c a unmarshal (get_pipeline_job_trace q) (numbered 400 text, s)
  refused_trace text = record {
    state = h;
    reply = λ n v plain e. absurd (numbered-not-success 400 text n v e);
  }

  pub handle-get_pipeline_job_trace :
      IsHandled c a unmarshal
        (get_pipeline_job_trace q)
        (handle c w unmarshal (get_pipeline_job_trace q) s)
  unfolding handle
  handle-get_pipeline_job_trace = elim (Option-cases (atoi q.id)) [
    | inl e ↦
        subst (IsHandled c a unmarshal (get_pipeline_job_trace q))
          (sym (get_pipeline_job_trace-refused (pipelines_service c w) q s e)) (refused_trace _)
    | inr (id, e) ↦
        subst (IsHandled c a unmarshal (get_pipeline_job_trace q))
          (sym (get_pipeline_job_trace-served (pipelines_service c w) q s id e)) (served_trace id e)
  ]
