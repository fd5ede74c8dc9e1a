-- ===== src/Tests/Server.antt =====
-- Runs of the program as a whole on empty caches in memory, in worlds where the branches change.
use gitfusion.Prelude.{pos, some, ◌≡◌, refl, List, [], ◌∷◌, GoString, str, All, count, eq_str}
use gitfusion.GoError.{Result, ok, err, message}
use gitfusion.Models.{GitServerSettings, PipelineVariable}
use gitfusion.Cache.Assoc.{assoc_fetching, assoc_get, assoc_delete, assoc_keys, assoc_fetch}
use gitfusion.Cache.Clear.{clear, delete_all}
use gitfusion.Services.Provider.{gitlab, provider_of}
use gitfusion.Services.Keys.{join_bar}
use gitfusion.Services.PipelineTypes.{jobs_provider}
use gitfusion.Api.Numbers.{atoi}
use gitfusion.Services.Krci.{get_settings}
use gitfusion.Services.Branches.{branch_key}
use gitfusion.Api.Responses.{success}
use gitfusion.Server.Types.{
  World, Caches, App, Request, list_branches, list_pipeline_jobs, invalidate_cache,
}
use gitfusion.Server.Handle.{handle}
use gitfusion.Server.Claims.{IsTruthful}
use gitfusion.Server.Sound.{IsSoundApp}
use gitfusion.Server.Replies.{IsReply, texts}
use gitfusion.Server.Told.{told, All-truthful}
use gitfusion.Server.Runs.{IsReachable, IsReachable-IsSoundApp}
use gitfusion.Server.Refines.{IsEmptyApp, IsEmptyApp-IsSoundApp, handle-refines}
use gitfusion.Server.Fresh.{invalidate_cache-fresh}
use gitfusion.Server.Answers.{IsProvided, invalidate_cache-answers}
use gitfusion.Tests.Data.{settings_cache, gl_settings, cluster, pipeline_clients, empty_caches}

abbrev no : {T : Type 0} → Result T
no = err (message (str "no"))

-- The repository has one branch, whose name changes with the world.
abbrev world : GoString → World Unit
world branch = record {
  cluster = cluster;
  repository_of = λ p owner repo settings. no;
  repositories_of = λ p owner settings opts. no;
  organizations_of = λ p settings. no;
  branches_of = λ p owner repo settings opts. ok (record { name = branch } ∷ []);
  pull_requests_of = λ p owner repo settings opts. no;
  pipelines = record {
    trigger_of = λ p project ref variables settings. no;
    list_of = λ p project settings opts. no;
    jobs_of = λ p project id settings. ok [];
    trace_of = λ p project id settings. no;
  };
}

abbrev caches : Caches Unit
caches = record {
  settings = assoc_fetching GitServerSettings;
  repositories = assoc_fetching _;
  organizations = assoc_fetching _;
  branches = assoc_fetching _;
  pull_requests = assoc_fetching _;
  pipelines = pipeline_clients;
}

abbrev empty_app : App caches
empty_app = record {
  settings = [];
  repositories = [];
  organizations = [];
  branches = [];
  pull_requests = [];
  pipelines = empty_caches;
}

empty : IsEmptyApp caches empty_app
unfolding assoc_get
empty = record {
  settings = λ k. refl;
  repositories = λ k. refl;
  organizations = λ k. refl;
  branches = λ k. refl;
  pull_requests = λ k. refl;
  pipelines = λ k. refl;
  jobs = λ k. refl;
  live = λ k. refl;
  done = λ k. refl;
  terminal_jobs = λ k. refl;
}

abbrev no_variables : GoString → Result (List PipelineVariable)
no_variables s = no

abbrev branches_request : Request
branches_request = list_branches (str "gl") (str "me") (str "app")

abbrev seen : App caches
seen = (handle caches (world (str "old")) no_variables branches_request empty_app).1

seen_run : IsReachable caches no_variables empty_app (world (str "old") ∷ []) seen
seen_run = IsReachable.handled [] empty_app (world (str "old")) branches_request IsReachable.started

plain : All (λ s. count b'|' s ≡ 0) (texts branches_request)
unfolding count
plain = (refl, (refl, (refl, tt)))

from_cache :
    (handle caches (world (str "new")) no_variables branches_request seen).0
    ≡ success 200 (record { name = str "old" } ∷ [])
unfolding handle get_settings assoc_fetch assoc_get eq_str provider_of branch_key join_bar
from_cache = refl

from_provider :
    (handle caches
      (world (str "new"))
      no_variables
      branches_request
      (handle caches (world (str "old")) no_variables (invalidate_cache (str "branches")) seen).1).0
    ≡ success 200 (record { name = str "new" } ∷ [])
unfolding handle get_settings assoc_fetch assoc_get assoc_delete assoc_keys eq_str provider_of
    branch_key join_bar clear delete_all
from_provider = refl

handle-refines_example :
    IsReply
      (told (world (str "new") ∷ world (str "old") ∷ []))
      no_variables
      branches_request
      (record { name = str "old" } ∷ [])
handle-refines_example =
    handle-refines caches no_variables empty_app (world (str "old") ∷ []) seen (world (str "new"))
      branches_request 200 (record { name = str "old" } ∷ []) empty seen_run plain from_cache

invalidate_cache-fresh_example :
    IsReply
      (told (world (str "new") ∷ []))
      no_variables
      branches_request
      (record { name = str "new" } ∷ [])
invalidate_cache-fresh_example =
    invalidate_cache-fresh caches no_variables empty_app (world (str "old") ∷ []) seen
      (world (str "old")) (world (str "new")) branches_request 200
      (record { name = str "new" } ∷ []) empty seen_run plain from_provider

old_truthful :
    All (IsTruthful caches.pipelines (told (world (str "old") ∷ []))) (world (str "old") ∷ [])
old_truthful =
    All-truthful caches.pipelines (world (str "old") ∷ []) (world (str "old") ∷ []) (λ P h. h)

IsReachable-IsSoundApp_example : IsSoundApp caches (told (world (str "old") ∷ [])) seen
IsReachable-IsSoundApp_example =
    IsReachable-IsSoundApp caches no_variables (told (world (str "old") ∷ [])) empty_app
      (world (str "old") ∷ []) seen
      (IsEmptyApp-IsSoundApp caches (told (world (str "old") ∷ [])) empty_app empty) old_truthful
      seen_run

settings_found : (get_settings cluster settings_cache (str "gl") seen.settings).0 ≡ ok gl_settings
unfolding handle get_settings assoc_fetch assoc_get eq_str provider_of
settings_found = refl

gitlab_known : provider_of (str "gitlab") ≡ some gitlab
unfolding provider_of eq_str
gitlab_known = refl

invalidate_cache-answers_example :
    (handle caches
      (world (str "new"))
      no_variables
      branches_request
      (handle caches (world (str "old")) no_variables (invalidate_cache (str "branches")) seen).1).0
    ≡ success 200 (record { name = str "new" } ∷ [])
invalidate_cache-answers_example =
    invalidate_cache-answers caches no_variables (world (str "old")) (world (str "new")) seen
      gl_settings gitlab gitlab_known branches_request (record { name = str "new" } ∷ [])
      settings_found refl

-- A job list is provided too: the text of the id is a number, and GitLab lists jobs.
jobs-IsProvided :
    IsProvided
      (world (str "new"))
      gitlab
      gl_settings
      (list_pipeline_jobs (record { git_server = str "gl"; project = str "me/app"; id = str "7" }))
      []
unfolding atoi jobs_provider provider_of eq_str
jobs-IsProvided = (pos 7, refl, refl, refl)
