-- ===== src/Services/Pipelines/Traces.antt =====
-- What the trace cache of internal/services/pipelines/pipelines_provider.go holds, at all times.
use mathlib.Core.Path.{subst, subst₂}
use gitfusion.Prelude.{
  ◌∙◌, ◌≡◌, ◌≤◌, refl, sym, inl, inr, Bool, true, false, not, ◌&&◌, leb, length, Option, none, some,
  List, [], ◌∷◌, GoString, All, arith, itoa, Bool-cases,
}
use gitfusion.Models.{PipelineJob}
use gitfusion.Cache.Terminal.{terminal_set}
use gitfusion.Cache.Manager.{JobTrace}
use gitfusion.Services.Keys.{NoBar}
use gitfusion.Services.PipelineTypes.{
  NumberRequest, number_fields, number_key, is_terminal_job_status, terminal_job_key,
  PipelineProviders, PipelineClients, PipelineCaches, max_cacheable_trace_bytes,
}
use gitfusion.Services.Pipelines.{mark_terminal_jobs, store_trace, is_found}
use gitfusion.Services.Pipelines.Lists.{number_key-injective, terminal_job_key-injective}

-- A trace that may be cached.
pub record IsComplete (t : JobTrace) : Type 0 where
  pub whole : t.truncated ≡ false
  pub small : length t.content ≤ max_cacheable_trace_bytes

module _ {Float32 : Type 0} (c : PipelineClients Float32)
    (Answers : NumberRequest → JobTrace → Type 0) (IsFinished : GoString → GoString → Type 0) where
  -- What an entry under a key is good for: any key holds a complete trace, and the key of a request
  -- without `|` holds an answer to it.
  pub record IsGood (key : GoString) (t : JobTrace) : Type 0 where
    pub complete : IsComplete t
    pub answers :
        (r : NumberRequest) → All NoBar (number_fields r) → number_key r ≡ key → Answers r t

  pub record IsTraceState (s : PipelineCaches c) : Type 0 where
    pub live :
        (key : GoString) (t : JobTrace) → c.traces.get key s.traces.live ≡ some t → IsGood key t
    pub done :
        (key : GoString) (t : JobTrace) → c.traces.get key s.traces.done ≡ some t → IsGood key t
    -- a trace in the done tier is that of a job which was seen to be finished
    pub finished :
        (r : NumberRequest) (t : JobTrace)
        → All NoBar (number_fields r)
        → c.traces.get (number_key r) s.traces.done ≡ some t
        → IsFinished r.git_server (itoa r.number)
    pub marked :
        (server id : GoString) (b : Bool)
        → All NoBar (server ∷ id ∷ [])
        → c.terminal_jobs.get (terminal_job_key server id) s.terminal_jobs ≡ some b
        → IsFinished server id

  -- A mark on a finished job is sound.
  mark-IsTraceState :
      (server id : GoString) (s : PipelineCaches c)
      → IsFinished server id
      → IsTraceState s
      → IsTraceState (record s {
        terminal_jobs = c.terminal_jobs.set (terminal_job_key server id) true s.terminal_jobs;
      })
  mark-IsTraceState server id s f h = record {
    live = h.live;
    done = h.done;
    finished = h.finished;
    marked = λ server' id' b p found.
        elim (c.terminal_jobs.get_set _ _ true b s.terminal_jobs found) [
          | inl (same, _) ↦
              let (e, e') = terminal_job_key-injective server' id' server id p (sym same) in
              subst₂ IsFinished (sym e) (sym e') f
          | inr old ↦ h.marked server' id' b p old
        ];
  }

  set-IsGood :
      (r : NumberRequest) (t : JobTrace) (x : c.traces.Store)
      → IsComplete t
      → Answers r t
      → ((key : GoString) (u : JobTrace) → c.traces.get key x ≡ some u → IsGood key u)
      → (key : GoString) (u : JobTrace)
      → c.traces.get key (c.traces.set (number_key r) t x) ≡ some u
      → IsGood key u
  set-IsGood r t x whole a h key u found = elim (c.traces.get_set key (number_key r) t u x found) [
    | inl (same, e) ↦ subst (IsGood key) e (record {
      complete = whole;
      answers =
          λ q p e'. subst (λ z. Answers z t) (sym (number_key-injective q r p (e' ∙ sym same))) a;
    })
    | inr old ↦ h key u old
  ]

  -- The write of a complete answer, to the done tier for a finished job and to the live tier else.
  set-IsTraceState :
      (r : NumberRequest) (t : JobTrace) (terminal : Bool) (s : PipelineCaches c)
      → IsComplete t
      → Answers r t
      → (terminal ≡ true → All NoBar (number_fields r) → IsFinished r.git_server (itoa r.number))
      → IsTraceState s
      → IsTraceState
          (record s { traces = terminal_set c.traces (number_key r) t terminal s.traces })
  unfolding terminal_set
  set-IsTraceState r t false s whole a fin h = record {
    live = set-IsGood r t s.traces.live whole a h.live;
    done = h.done;
    finished = h.finished;
    marked = h.marked;
  }
  set-IsTraceState r t true s whole a fin h = record {
    live = h.live;
    done = set-IsGood r t s.traces.done whole a h.done;
    finished = λ q u p found.
        elim (c.traces.get_set (number_key q) (number_key r) t u s.traces.done found) [
          | inl (same, _) ↦
              let e = number_key-injective q r p (sym same) in
              subst (λ z. IsFinished z.git_server (itoa z.number)) (sym e)
                (fin refl (subst (λ z. All NoBar (number_fields z)) e p))
          | inr old ↦ h.finished q u p old
        ];
    marked = h.marked;
  }

  is_found-eq : {A : Type 0} (o : Option A) → is_found o ≡ true → (a : A) × (o ≡ some a)
  is_found-eq none e = absurd (ground arith)
  is_found-eq (some a) e = (a, refl)

  -- Only complete traces are stored, and in the done tier only those of marked jobs.
  pub store_trace-IsTraceState :
      (p : PipelineProviders Float32) (r : NumberRequest) (t : JobTrace) (s : PipelineCaches c)
      → Answers r t
      → IsTraceState s
      → IsTraceState (store_trace c p r t s)
  unfolding store_trace
  store_trace-IsTraceState p r t s a h =
      elim (Bool-cases (not t.truncated && leb (length t.content) max_cacheable_trace_bytes)) [
        | inl e ↦ rw e (
            set-IsTraceState r t _ s (record { whole = ground arith; small = ground arith }) a
              (λ found plain.
                let (b, marked) = is_found-eq _ found in
                h.marked r.git_server (itoa r.number) b (plain.0, plain.1.1) marked)
              h)
        | inr e ↦ rw e h
      ]

  -- Marks made from a list of jobs are sound if each finished one among them is finished.
  pub mark_terminal_jobs-IsTraceState :
      (p : PipelineProviders Float32) (server : GoString) (jobs : List (PipelineJob Float32))
      (s : PipelineCaches c)
      → All (λ j. is_terminal_job_status j.status ≡ true → IsFinished server j.id) jobs
      → IsTraceState s
      → IsTraceState
          (record s { terminal_jobs = mark_terminal_jobs c p server jobs s.terminal_jobs })
  unfolding mark_terminal_jobs
  mark_terminal_jobs-IsTraceState p server [] s f h = h
  mark_terminal_jobs-IsTraceState p server (j ∷ jobs) s f h =
      elim (Bool-cases (is_terminal_job_status j.status)) [
        | inl e ↦ rw e (
            mark_terminal_jobs-IsTraceState p server jobs
              (record s {
                terminal_jobs =
                    c.terminal_jobs.set (terminal_job_key server j.id) true s.terminal_jobs;
              })
              f.1 (mark-IsTraceState server j.id s (f.0 e) h))
        | inr e ↦ rw e (mark_terminal_jobs-IsTraceState p server jobs s f.1 h)
      ]
