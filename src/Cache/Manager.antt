-- ===== src/Cache/Manager.antt =====
-- internal/cache/manager.go. The manager holds pointers to the services' caches: here it acts on
-- one record of all their stores.
pub mod Laws
use gitfusion.Prelude.{
  ◌≡◌, refl, ◌⊎◌, inl, inr, Bool, true, false, Option, none, some, List, [], ◌∷◌, ◌++◌, GoString,
  str, ◌==◌, nat_eq, string_eq, eq_str_iff, if◌then◌else◌, Option-cases, arith,
}
use gitfusion.GoError.{GoError, Result, ok, err, message}
use gitfusion.Models.{
  Repository, Organization, Branch, PullRequestsResponse, PipelinesResponse, PipelineJob,
}
use gitfusion.Cache.Client.{CacheClient}
use gitfusion.Cache.Clear.{clear, get-clear}
use gitfusion.Cache.Terminal.{
  Tiers, terminal_get, terminal_invalidate, terminal_get-terminal_invalidate,
}

-- `cache.JobTrace`; the content is bytes.
pub record JobTrace : Type 0 where
  pub content : GoString
  pub truncated : Bool

pub record Clients (Float32 : Type 0) : Type 1 where
  pub repository : CacheClient (List Repository)
  pub organization : CacheClient (List Organization)
  pub branch : CacheClient (List Branch)
  pub pull_request : CacheClient PullRequestsResponse
  pub pipeline : CacheClient PipelinesResponse
  pub pipeline_jobs : CacheClient (List (PipelineJob Float32))
  pub job_trace : CacheClient JobTrace

pub record Manager {Float32 : Type 0} (c : Clients Float32) : Type 0 where
  pub repository : c.repository.Store
  pub organization : c.organization.Store
  pub branch : c.branch.Store
  pub pull_request : c.pull_request.Store
  pub pipeline : c.pipeline.Store
  pub pipeline_jobs : c.pipeline_jobs.Store
  pub job_trace : Tiers c.job_trace

unfoldable pub supported_endpoints : List GoString
supported_endpoints =
    str "repositories"
    ∷ str "organizations"
    ∷ str "branches"
    ∷ str "pullrequests"
    ∷ str "pipelines"
    ∷ []

module _ {Float32 : Type 0} (c : Clients Float32) where
  clear_pipelines : Manager c → Manager c
  clear_pipelines m = record m {
    pipeline = clear c.pipeline m.pipeline;
    pipeline_jobs = clear c.pipeline_jobs m.pipeline_jobs;
    job_trace = terminal_invalidate c.job_trace m.job_trace;
  }

  unfoldable pub invalidate_cache : GoString → Manager c → Result (Unit {0}) × Manager c
  unfolding clear_pipelines
  invalidate_cache endpoint m =
      if endpoint == str "repositories"
      then (ok tt, record m { repository = clear c.repository m.repository })
      else if endpoint == str "organizations"
      then (ok tt, record m { organization = clear c.organization m.organization })
      else if endpoint == str "branches"
      then (ok tt, record m { branch = clear c.branch m.branch })
      else if endpoint == str "pullrequests"
      then (ok tt, record m { pull_request = clear c.pull_request m.pull_request })
      else if endpoint == str "pipelines"
      then (ok tt, clear_pipelines m)
      else (err (message (str "unsupported endpoint: " ++ endpoint)), m)
