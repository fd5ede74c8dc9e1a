-- ===== src/Tests/Data.antt =====
-- A cluster with one GitLab server, caches in memory, and inputs for the runs.
use gitfusion.Prelude.{sym, Bool, false, none, some, List, [], ◌∷◌, GoString, str, pos}
use gitfusion.GoError.{ok, ok-injective}
use gitfusion.Models.{
  GitServerSettings, ListOptions, PullRequestListOptions, PipelineListOptions, PipelinesResponse,
  PullRequestsResponse, Branch, Organization, Repository, PipelineJob,
}
use gitfusion.Cache.Client.{FetchingClient}
use gitfusion.Cache.Assoc.{assoc_client, assoc_fetching}
use gitfusion.Cache.Manager.{Clients, Manager, JobTrace}
use gitfusion.Services.Krci.{Cluster}
use gitfusion.Services.Dispatch.{ServiceState}
use gitfusion.Services.PipelineTypes.{PipelineClients, PipelineCaches}

abbrev pub cluster : Cluster
cluster = record {
  GitServer = GoString;
  name = λ s. s;
  git_provider = λ s. str "gitlab";
  secret_name = λ s. s;
  api_url = λ s. str "https://gitlab.com";
  get_git_server = ok;
  list_git_servers = ok (str "gl" ∷ []);
  get_secret_token = λ s. ok (some (str "token"));
  get_named = λ n g e. sym (ok-injective e);
}

abbrev pub gl_settings : GitServerSettings
gl_settings = record {
  url = str "https://gitlab.com";
  token = str "token";
  git_provider = str "gitlab";
  git_server_name = str "gl";
}

abbrev pub settings_cache : FetchingClient GitServerSettings
settings_cache = assoc_fetching GitServerSettings

abbrev pub no_entries : {V : Type 0} → List (GoString × V)
no_entries = []

abbrev pub fresh : {V : Type 0} → ServiceState settings_cache (List (GoString × V))
fresh = record { settings = []; cache = [] }

abbrev pub no_filter : ListOptions
no_filter = record { name = none }

abbrev pub first_page : PullRequestListOptions
first_page = record { state = str "open"; page = pos 1; per_page = pos 20 }

abbrev pub first_pipelines : PipelineListOptions
first_pipelines = record { ref = none; status = none; page = pos 1; per_page = pos 20 }

abbrev pub no_pipelines : PipelinesResponse
no_pipelines = record {
  items = [];
  pagination = record { page = some (pos 1); per_page = some (pos 20); total = pos 0 };
}

abbrev pub no_pull_requests : PullRequestsResponse
no_pull_requests = record {
  items = [];
  pagination = record { page = some (pos 1); per_page = some (pos 20); total = pos 0 };
}

abbrev pub job : GoString → GoString → PipelineJob Unit
job id status = record {
  allow_failure = none;
  created_at = none;
  duration = none;
  failure_reason = none;
  finished_at = none;
  id = id;
  name = str "build";
  ref = none;
  stage = str "build";
  started_at = none;
  status = status;
  web_url = none;
}

abbrev pub all_clients : Clients Unit
all_clients = record {
  repository = assoc_client (List Repository);
  organization = assoc_client (List Organization);
  branch = assoc_client (List Branch);
  pull_request = assoc_client PullRequestsResponse;
  pipeline = assoc_client PipelinesResponse;
  pipeline_jobs = assoc_client (List (PipelineJob Unit));
  job_trace = assoc_client JobTrace;
}

abbrev pub trace : JobTrace
trace = record { content = str "log"; truncated = false }

abbrev pub full_manager : Manager all_clients
full_manager = record {
  repository = (str "r", []) ∷ [];
  organization = (str "o", []) ∷ [];
  branch = (str "b", []) ∷ [];
  pull_request = (str "p", no_pull_requests) ∷ [];
  pipeline = (str "q", no_pipelines) ∷ [];
  pipeline_jobs = (str "j", []) ∷ [];
  job_trace = record { live = (str "t", trace) ∷ []; done = (str "u", trace) ∷ [] };
}

abbrev pub pipeline_clients : PipelineClients Unit
pipeline_clients = record {
  pipelines = assoc_fetching PipelinesResponse;
  jobs = assoc_fetching (List (PipelineJob Unit));
  traces = assoc_client JobTrace;
  terminal_jobs = assoc_client Bool;
}

abbrev pub empty_caches : PipelineCaches pipeline_clients
empty_caches = record {
  pipelines = [];
  jobs = [];
  traces = record { live = []; done = [] };
  terminal_jobs = [];
}
