-- ===== src/Cache/Manager/Laws.antt =====
-- What `InvalidateCache` of internal/cache/manager.go does to each cache, for every endpoint string.
use gitfusion.Prelude.{
  ◌≡◌, ◌↔◌, ◌⊎◌, true, none, GoString, str, ◌==◌, nat_eq, string_eq, eq_str_iff, if◌then◌else◌,
  arith, contains,
}
use gitfusion.GoError.{ok}
use gitfusion.Cache.Clear.{get-clear}
use gitfusion.Cache.Terminal.{terminal_get, terminal_invalidate, terminal_get-terminal_invalidate}
use gitfusion.Cache.Manager.{Clients, Manager, invalidate_cache, supported_endpoints}

module _ {Float32 : Type 0} (c : Clients Float32) where
  -- Each cache loses every key if the endpoint is its own, and answers as before if not.
  pub record IsInvalidated (endpoint : GoString) (m n : Manager c) : Type 0 where
    pub repository :
        (k : GoString)
        → c.repository.get k n.repository
          ≡ (if endpoint == str "repositories" then none else c.repository.get k m.repository)
    pub organization :
        (k : GoString)
        → c.organization.get k n.organization
          ≡ (if endpoint == str "organizations" then none else c.organization.get k m.organization)
    pub branch :
        (k : GoString)
        → c.branch.get k n.branch
          ≡ (if endpoint == str "branches" then none else c.branch.get k m.branch)
    pub pull_request :
        (k : GoString)
        → c.pull_request.get k n.pull_request
          ≡ (if endpoint == str "pullrequests" then none else c.pull_request.get k m.pull_request)
    pub pipeline :
        (k : GoString)
        → c.pipeline.get k n.pipeline
          ≡ (if endpoint == str "pipelines" then none else c.pipeline.get k m.pipeline)
    pub pipeline_jobs :
        (k : GoString)
        → c.pipeline_jobs.get k n.pipeline_jobs
          ≡ (if endpoint == str "pipelines" then none else c.pipeline_jobs.get k m.pipeline_jobs)
    pub job_trace :
        (k : GoString)
        → terminal_get c.job_trace k n.job_trace
          ≡ (if endpoint == str "pipelines" then none else terminal_get c.job_trace k m.job_trace)

  -- For every endpoint string, supported or not: after the call each of the seven caches has no key if
  -- the endpoint is its own (pipelines, jobs and traces share one), and answers as before if not.
  pub invalidate_cache-IsInvalidated :
      (endpoint : GoString) (m : Manager c)
      → IsInvalidated endpoint m (invalidate_cache c endpoint m).1
  unfolding invalidate_cache
  invalidate_cache-IsInvalidated endpoint m = record {
    repository = λ k. ground (arith, get-clear c.repository k m.repository);
    organization = λ k. ground (
      arith,
      get-clear c.organization k m.organization,
      eq_str_iff endpoint (str "organizations"),
      eq_str_iff endpoint (str "repositories"),
    );
    branch = λ k. ground (
      arith,
      get-clear c.branch k m.branch,
      eq_str_iff endpoint (str "repositories"),
      eq_str_iff endpoint (str "organizations"),
      eq_str_iff endpoint (str "branches"),
    );
    pull_request = λ k. ground (
      arith,
      get-clear c.pull_request k m.pull_request,
      eq_str_iff endpoint (str "repositories"),
      eq_str_iff endpoint (str "organizations"),
      eq_str_iff endpoint (str "branches"),
      eq_str_iff endpoint (str "pullrequests"),
    );
    pipeline = λ k. ground (
      arith,
      get-clear c.pipeline k m.pipeline,
      eq_str_iff endpoint (str "repositories"),
      eq_str_iff endpoint (str "organizations"),
      eq_str_iff endpoint (str "branches"),
      eq_str_iff endpoint (str "pullrequests"),
      eq_str_iff endpoint (str "pipelines"),
    );
    pipeline_jobs = λ k. ground (
      arith,
      get-clear c.pipeline_jobs k m.pipeline_jobs,
      eq_str_iff endpoint (str "repositories"),
      eq_str_iff endpoint (str "organizations"),
      eq_str_iff endpoint (str "branches"),
      eq_str_iff endpoint (str "pullrequests"),
      eq_str_iff endpoint (str "pipelines"),
    );
    job_trace = λ k. ground (
      arith,
      terminal_get-terminal_invalidate c.job_trace k m.job_trace,
      eq_str_iff endpoint (str "repositories"),
      eq_str_iff endpoint (str "organizations"),
      eq_str_iff endpoint (str "branches"),
      eq_str_iff endpoint (str "pullrequests"),
      eq_str_iff endpoint (str "pipelines"),
    );
  }

  -- The call succeeds exactly for the endpoints that `GetSupportedEndpoints` lists.
  pub invalidate_cache-eq-ok_iff :
      (endpoint : GoString) (m : Manager c)
      → ((invalidate_cache c endpoint m).0 ≡ ok tt) ↔ (contains supported_endpoints endpoint ≡ true)
  unfolding invalidate_cache supported_endpoints
  invalidate_cache-eq-ok_iff endpoint m = ground arith

  -- The two tiers of traces are emptied together, or left as they are.
  pub invalidate_cache-tiers :
      (endpoint : GoString) (m : Manager c)
      → ((invalidate_cache c endpoint m).1.job_trace ≡ m.job_trace)
        ⊎ ((invalidate_cache c endpoint m).1.job_trace
            ≡ terminal_invalidate c.job_trace m.job_trace)
  unfolding invalidate_cache
  invalidate_cache-tiers endpoint m = ground arith
