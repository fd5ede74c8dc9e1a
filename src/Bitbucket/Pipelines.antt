-- ===== src/Bitbucket/Pipelines.antt =====
-- `ListPipelines` of internal/services/bitbucket/bitbucket.go.
pub mod Laws
use gitfusion.Prelude.{
  ℕ, ◌≡◌, refl, ap, ◌∙◌, Bool, true, false, ◌||◌, Option, none, some, All, List, [], ◌∷◌, ◌++◌, map,
  GoString, str, nonempty, count, itoa, pos, ◌==◌, nat_eq, string_eq, eq_str, if◌then◌else◌,
}
use gitfusion.Common.{value_or_empty, split_project}
use gitfusion.GoError.{GoError, Result, ok, err, wrapped, ◌>>=◌}
use gitfusion.Models.{
  Time, Pipeline, PipelinesResponse, PipelineListOptions, GitServerSettings, PipelineSource,
}
use gitfusion.Bitbucket.Types.{BitbucketPipeline, Page, Answer}
use gitfusion.Bitbucket.Token.{decode_token}
use gitfusion.Bitbucket.Convert.{normalize_pipeline_status, normalize_trigger}
use gitfusion.Bitbucket.Query.{pipelines_query}
use gitfusion.Bitbucket.Calls.{Request, Get, found, each, repository_url}
use gitfusion.Bitbucket.Lists.{or_wrapped}
use gitfusion.Bitbucket.PullRequests.{read_time}

-- strings.Trim(s, "{}")
abbrev pub is_brace : ℕ → Bool
is_brace c = c == b'{' || c == b'}'

unfoldable pub trim_left : GoString → GoString
trim_left [] = []
trim_left (c ∷ s) = let rest = trim_left s in if is_brace c then rest else c ∷ s

unfoldable pub trim_right : GoString → GoString
trim_right [] = []
trim_right (c ∷ s) =
    let rest = trim_right s in if nonempty rest then c ∷ rest else if is_brace c then [] else c ∷ []

unfoldable pub trim_braces : GoString → GoString
unfolding trim_left trim_right
trim_braces s = trim_left (trim_right s)

abbrev q_parameter : Option GoString → List (GoString × GoString)
q_parameter none = []
q_parameter (some q) = (str "q", q) ∷ []

abbrev pub is_skipped : Option GoString → Bool
is_skipped none = false
is_skipped (some status) = status == str "skipped"

-- `if p.CompletedOn != ""`
module _ (parse_time : GoString → Result Time) (quote : GoString → GoString) where
  completed_time : GoString → Result (Option Time)
  unfolding read_time
  completed_time text =
      if nonempty text
      then (read_time parse_time quote (str "completed_on") text >>= λ t. ok (some t))
      else ok none

  unfoldable pub convert_pipeline : BitbucketPipeline → Result Pipeline
  unfolding read_time completed_time trim_braces normalize_pipeline_status normalize_trigger
  convert_pipeline p = do
    created ← read_time parse_time quote (str "created_on") p.created_on
    completed ← completed_time p.completed_on
    ok (record {
      created_at = created;
      id = trim_braces p.uuid;
      project_id = none;
      ref = p.ref_name;
      sha = p.commit_hash;
      source = if nonempty p.trigger_name then some (normalize_trigger p.trigger_name) else none;
      status = normalize_pipeline_status p.state_name (value_or_empty p.result_name);
      updated_at = completed;
      web_url = p.html_href;
    })

  -- The parameters are the error of the base64 decoder and the HTTP client.
  module _ (corrupt : GoString → GoError) (get : Get BitbucketPipeline) where
    unfoldable pub pipelines_request :
        GoString × GoString → GoString × GoString → PipelineListOptions → Request
    unfolding repository_url pipelines_query itoa
    pipelines_request repo login opts = record {
      url = repository_url repo.0 repo.1 (str "pipelines/");
      username = login.0;
      password = login.1;
      query =
          (str "page", itoa opts.page)
          ∷ (str "pagelen", itoa opts.per_page)
          ∷ (str "sort", str "-created_on")
          ∷ q_parameter (pipelines_query opts.ref opts.status);
    }

    unfoldable pub pipelines_page :
        PipelineListOptions → GoString → Request → Result PipelinesResponse
    unfolding found each convert_pipeline
    pipelines_page opts project request = do
      answer ← or_wrapped (str "failed to list pipelines for " ++ project ++ str ": ") (get request)
      page ←
          found (str "project " ++ project ++ str ": ") false
            (str "failed to list pipelines for " ++ project) answer
      items ← each convert_pipeline page.values
      ok (record {
        items = items;
        pagination = record {
          page = some opts.page;
          per_page = some opts.per_page;
          total = page.size;
        };
      })

    -- No pipeline of Bitbucket is skipped: there is no request for those.
    unfoldable pub list_pipelines :
        GoString → GitServerSettings → PipelineListOptions → Result PipelinesResponse
    unfolding decode_token split_project pipelines_page pipelines_request
    list_pipelines project settings opts = do
      login ←
          or_wrapped (str "failed to decode bitbucket token: ")
            (decode_token corrupt settings.token)
      repo ← split_project quote project
      (if is_skipped opts.status
          then ok (record {
            items = [];
            pagination = record {
              page = some opts.page;
              per_page = some opts.per_page;
              total = pos 0;
            };
          })
          else pipelines_page opts project (pipelines_request repo login opts))
