-- ===== src/Tests/Bitbucket.antt =====
-- The Bitbucket provider at small inputs. The token is that of the user `u` and the password `p`.
use mathlib.Core.Path.{subst}
use gitfusion.Prelude.{
  ◌≡◌, ◌⊎◌, refl, sym, true, false, none, some, [], ◌∷◌, ◌++◌, map, GoString, str, All, ℤ, pos,
  eq_str, ◌==◌, nat_eq, int_eq, if◌then◌else◌, count, arith,
}
use gitfusion.GoError.{
  GoError, Result, ok, err, message, is_error, not_found, unauthorized, ok-injective,
}
use gitfusion.Models.{
  GitServerSettings, PullRequestState, PullRequestListOptions, PullRequestsResponse,
  PipelineListOptions, PipelineStatus, Time, state_string, status_string,
}
use gitfusion.Common.{split_project}
use gitfusion.Scan.{BranchesPage}
use gitfusion.Bitbucket.Types.{Answer, BitbucketPullRequest}
use gitfusion.Bitbucket.Base64.{encode, decode}
use gitfusion.Bitbucket.Token.{decode_token, split, decode_token-encode, decode_token_colon}
use gitfusion.Bitbucket.Convert.{normalize_pipeline_status}
use gitfusion.Bitbucket.Query.{
  read_quoted, sanitize, quote_mark, in_quotes, status_query, read_quoted-sanitize,
}
use gitfusion.Bitbucket.Calls.{Request}
use gitfusion.Bitbucket.Urls.{repository_url-injective}
use gitfusion.Bitbucket.Lists.{Library, list_branches, list_branches_complete}
use gitfusion.Bitbucket.PullRequests.{list_pull_requests}
use gitfusion.Bitbucket.PullRequests.Laws.{
  states, IsFilteredByState, list_pull_requests-of_state, list_pull_requests-refused,
}
use gitfusion.Bitbucket.Pipelines.{list_pipelines}
use gitfusion.Bitbucket.Pipelines.Laws.{
  list_pipelines-refused, status_query-normalize_pipeline_status,
}

abbrev corrupt : GoString → GoError
corrupt s = message (str "illegal base64 data")

token_tests :
    (encode (str "u:p") ≡ str "dTpw")
    × (decode_token corrupt (str "dTpw") ≡ ok (str "u", str "p"))
    × (decode (str "dQ") ≡ none)
unfolding encode decode_token split decode
token_tests = (refl, refl, refl)

decode_token-encode_example : decode_token corrupt (encode (str "u:p")) ≡ ok (str "u", str "p")
unfolding count
decode_token-encode_example =
    decode_token-encode corrupt (str "u") (str "p") (omega arith, (omega arith, (omega arith, tt)))
      refl refl

decode_token_colon_example :
    decode_token corrupt (encode (str "u:p:q")) ≡ err (message (str "invalid token format"))
unfolding count
decode_token_colon_example =
    decode_token_colon corrupt (str "u") (str "p:q")
      (omega arith, (omega arith, (omega arith, (omega arith, (omega arith, tt))))) refl
      (omega arith)

read_quoted-sanitize_example :
    read_quoted (sanitize (str "a\" OR \"") ++ quote_mark ∷ str " AND")
    ≡ some (str "a\" OR \"", str " AND")
read_quoted-sanitize_example = read_quoted-sanitize (str "a\" OR \"") (str " AND")

repository_url-injective_example : (str "me" ≡ str "me") × (str "a/b" ≡ str "a/b")
repository_url-injective_example =
    repository_url-injective (str "me") (str "a/b") (str "me") (str "a/b") (str "pullrequests")
      (omega arith, (omega arith, tt)) (omega arith, (omega arith, (omega arith, tt)))
      (omega arith, (omega arith, tt)) (omega arith, (omega arith, (omega arith, tt))) refl

status_query-normalize_pipeline_status_example :
    (v : GoString) × (((status_query (str "failed") ≡ str "state.name=" ++ in_quotes v)
        × ((result : GoString) → normalize_pipeline_status v result ≡ PipelineStatus.failed))
      ⊎ ((status_query (str "failed") ≡ str "state.result.name=" ++ in_quotes v)
          × (normalize_pipeline_status (str "COMPLETED") v ≡ PipelineStatus.failed)))
unfolding status_string
status_query-normalize_pipeline_status_example =
    status_query-normalize_pipeline_status PipelineStatus.failed (λ e. ground (arith, e))

abbrev token_settings : GitServerSettings
token_settings = record {
  url = str "https://bitbucket.org";
  token = str "dTpw";
  git_provider = str "bitbucket";
  git_server_name = str "bb";
}

-- Two pages of branches, the second of which is the last.
abbrev branch_pages : ℤ → Result (BranchesPage GoString)
branch_pages n =
    if n == pos 2
    then ok (record { branches = str "fix" ∷ []; next = []; page = pos 2 })
    else ok (record { branches = str "main" ∷ str "dev" ∷ []; next = str "?page=2"; page = pos 1 })

abbrev library : Library
library = record {
  get = λ owner repo. err (message (str "no"));
  list_for_account = λ owner name. err (message (str "no"));
  branches = λ owner repo. branch_pages;
}

abbrev basic_auth : GoString → GoString → Result Library
basic_auth user password = ok library

abbrev user_and_password : Result (GoString × GoString)
user_and_password = ok (str "u", str "p")

token_read : decode_token corrupt (str "dTpw") ≡ user_and_password
unfolding decode_token split decode
token_read = refl

list_branches_complete_example :
    list_branches corrupt basic_auth 2 (str "me") (str "app") token_settings
    ≡ some (
        ok (
          record { name = str "main" }
          ∷ record { name = str "dev" }
          ∷ record { name = str "fix" }
          ∷ []))
list_branches_complete_example =
    list_branches_complete corrupt basic_auth 2 (str "me") (str "app") (str "u") (str "p")
      token_settings library (str "main" ∷ str "dev" ∷ []) ((str "fix" ∷ []) ∷ []) token_read refl
      refl ((str "?page=2", refl, refl), refl) (omega arith) (omega arith)

abbrev always : GoString → Result Time
always s = ok (pos 0)

abbrev in_quotation_marks : GoString → GoString
in_quotation_marks s = quote_mark ∷ s ++ quote_mark ∷ []

abbrev pull_request_in : GoString → BitbucketPullRequest
pull_request_in state = record {
  id = pos 7;
  title = str "Fix";
  state = state;
  description = [];
  draft = false;
  author_name = str "Me";
  author_uuid = str "{m}";
  author_avatar = [];
  source_branch = str "fix";
  source_hash = [];
  destination_branch = str "main";
  html_href = [];
  created_on = str "2026-01-02T03:04:05Z";
  updated_on = str "2026-01-02T03:04:05Z";
}

-- One pull request in each state that is asked for.
abbrev one_each : Request → Result (Answer BitbucketPullRequest)
one_each request = ok (record {
  status = 200;
  text = [];
  page = record { size = pos 1; values = map pull_request_in (states request.query) };
})

one_each-IsFilteredByState : IsFilteredByState always in_quotation_marks corrupt one_each
one_each-IsFilteredByState request answer state got only below =
    subst (λ x. All (λ pr. pr.state ≡ state) x.page.values) (ok-injective got)
      (subst (λ l. All (λ pr. pr.state ≡ state) (map pull_request_in l)) (sym only) (refl, tt))

abbrev merged_page : PullRequestListOptions
merged_page = record { state = str "merged"; page = pos 1; per_page = pos 20 }

abbrev listed : Result PullRequestsResponse
listed =
    list_pull_requests always in_quotation_marks corrupt one_each (str "me") (str "app")
      token_settings merged_page

abbrev value_of_listed :
    (r : Result PullRequestsResponse) → PullRequestsResponse → PullRequestsResponse
value_of_listed (ok r) d = r
value_of_listed (err e) d = d

abbrev nothing : PullRequestsResponse
nothing = record { items = []; pagination = record { page = none; per_page = none; total = pos 0 } }

listed-ok : listed ≡ ok (value_of_listed listed nothing)
unfolding list_pull_requests decode_token split decode states eq_str
listed-ok = refl

list_pull_requests-of_state_example :
    All (λ p. p.state ≡ PullRequestState.merged) (value_of_listed listed nothing).items
unfolding state_string
list_pull_requests-of_state_example =
    list_pull_requests-of_state always in_quotation_marks corrupt one_each (str "me") (str "app")
      token_settings merged_page PullRequestState.merged (value_of_listed listed nothing)
      one_each-IsFilteredByState refl listed-ok

abbrev forbidden : {V : Type 0} → Answer V
forbidden = record {
  status = 403;
  text = str "Forbidden";
  page = record { size = pos 0; values = [] };
}

list_pull_requests-refused_example :
    (e : GoError) × (list_pull_requests always in_quotation_marks corrupt
        (λ request. ok forbidden)
        (str "me")
        (str "app")
        token_settings
        merged_page
      ≡ err e)
    × (is_error e not_found ≡ false)
    × (is_error e unauthorized ≡ true)
list_pull_requests-refused_example =
    list_pull_requests-refused always in_quotation_marks corrupt (λ request. ok forbidden)
      (str "me") (str "app") token_settings merged_page (str "u", str "p") forbidden token_read refl
      (omega arith)

abbrev all_pipelines : PipelineListOptions
all_pipelines = record { ref = none; status = none; page = pos 1; per_page = pos 20 }

project_read : split_project in_quotation_marks (str "me/app") ≡ ok (str "me", str "app")
unfolding split_project
project_read = refl

list_pipelines-refused_example :
    (e : GoError) × (list_pipelines always in_quotation_marks corrupt
        (λ request. ok forbidden)
        (str "me/app")
        token_settings
        all_pipelines
      ≡ err e)
    × (is_error e not_found ≡ false)
    × (is_error e unauthorized ≡ false)
list_pipelines-refused_example =
    list_pipelines-refused always in_quotation_marks corrupt (λ request. ok forbidden)
      (str "me/app") token_settings all_pipelines (str "u", str "p") (str "me", str "app") forbidden
      token_read project_read (λ e. ground (arith, e)) refl (omega arith)
