-- ===== src/Bitbucket/PullRequests.antt =====
-- `ListPullRequests` of internal/services/bitbucket/bitbucket.go.
pub mod Laws
use gitfusion.Prelude.{
  ℕ, ◌≤◌, ◌==◌, string_eq, nat_eq, eq_str, ◌≡◌, refl, sym, ap, ◌∙◌, true, Option, none, some, All,
  List, [], ◌∷◌, ◌++◌, map, GoString, str, nonempty, itoa, if◌then◌else◌,
}
use gitfusion.GoError.{GoError, Result, ok, err, wrapped, ◌>>=◌, >>=-eq-ok, ok-injective}
use gitfusion.Models.{
  Time, Owner, PullRequest, PullRequestState, PullRequestsResponse, PullRequestListOptions,
  GitServerSettings, state_string,
}
use gitfusion.Bitbucket.Types.{BitbucketPullRequest, Page, Answer}
use gitfusion.Bitbucket.Token.{decode_token}
use gitfusion.Bitbucket.Convert.{convert_state, state_query, state_query-convert_state}
use gitfusion.Bitbucket.Calls.{Request, Get, found, found-eq-ok, each, each-All, repository_url}
use gitfusion.Bitbucket.Lists.{or_wrapped, or_wrapped-eq-ok}

abbrev pub unless_empty : GoString → Option GoString
unless_empty s = if nonempty s then some s else none

-- A time of a response, whose field is named in the error. The parameters are time.Parse for RFC 3339
-- with nanoseconds, and Go's `%q` verb.
module _ (parse_time : GoString → Result Time) (quote : GoString → GoString) where
  unfoldable pub read_time : GoString → GoString → Result Time
  read_time field text =
      or_wrapped (str "failed to parse " ++ field ++ str " time " ++ quote text ++ str ": ")
        (parse_time text)

-- The query parameters, one for each state that is asked for.
unfoldable pub pull_requests_query : PullRequestListOptions → List (GoString × GoString)
unfolding itoa state_query
pull_requests_query opts =
    (str "page", itoa opts.page)
    ∷ (str "pagelen", itoa opts.per_page)
    ∷ map (λ s. (str "state", s)) (state_query opts.state)

abbrev pub missing_text : GoString → GoString → GoString
missing_text owner repo = str "repository " ++ owner ++ str "/" ++ repo ++ str ": "

abbrev pub failed_text : GoString → GoString → GoString
failed_text owner repo = str "failed to list pull requests for " ++ owner ++ str "/" ++ repo

abbrev pub token_text : GoString
token_text = str "failed to decode bitbucket token: "

-- The value of the loop, when its two times are read.
pull_request_of : BitbucketPullRequest → Time → Time → PullRequest
unfolding convert_state itoa
pull_request_of pr created updated = record {
  author = some (record {
    avatar_url = unless_empty pr.author_avatar;
    id = pr.author_uuid;
    name = pr.author_name;
  });
  commit_sha = unless_empty pr.source_hash;
  created_at = created;
  description = unless_empty pr.description;
  draft = some pr.draft;
  id = itoa pr.id;
  number = pr.id;
  source_branch = pr.source_branch;
  state = convert_state pr.state;
  target_branch = pr.destination_branch;
  title = pr.title;
  updated_at = updated;
  url = pr.html_href;
}

module _ (parse_time : GoString → Result Time) (quote : GoString → GoString) where
  unfoldable pub convert_pull_request : BitbucketPullRequest → Result PullRequest
  unfolding read_time pull_request_of
  convert_pull_request pr = do
    created ← read_time parse_time quote (str "created_on") pr.created_on
    updated ← read_time parse_time quote (str "updated_on") pr.updated_on
    ok (pull_request_of pr created updated)

  -- The parameters are the error of the base64 decoder and the HTTP client.
  module _ (corrupt : GoString → GoError) (get : Get BitbucketPullRequest) where
    unfoldable pub pull_requests_request :
        GoString → GoString → GoString × GoString → PullRequestListOptions → Request
    unfolding repository_url pull_requests_query
    pull_requests_request owner repo login opts = record {
      url = repository_url owner repo (str "pullrequests");
      username = login.0;
      password = login.1;
      query = pull_requests_query opts;
    }

    -- The loop over the values of a page.
    page_reply : PullRequestListOptions → Page BitbucketPullRequest → Result PullRequestsResponse
    unfolding each convert_pull_request
    page_reply opts page = do
      items ← each convert_pull_request page.values
      ok (record {
        items = items;
        pagination = record {
          page = some opts.page;
          per_page = some opts.per_page;
          total = page.size;
        };
      })

    answer_reply :
        GoString
        → GoString
        → PullRequestListOptions
        → Answer BitbucketPullRequest
        → Result PullRequestsResponse
    unfolding found page_reply
    answer_reply owner repo opts answer = do
      page ← found (missing_text owner repo) true (failed_text owner repo) answer
      page_reply opts page

    login_reply :
        GoString
        → GoString
        → PullRequestListOptions
        → GoString × GoString
        → Result PullRequestsResponse
    unfolding pull_requests_request answer_reply
    login_reply owner repo opts login = do
      answer ←
          or_wrapped (failed_text owner repo ++ str ": ")
            (get (pull_requests_request owner repo login opts))
      answer_reply owner repo opts answer

    unfoldable pub list_pull_requests :
        GoString
        → GoString
        → GitServerSettings
        → PullRequestListOptions
        → Result PullRequestsResponse
    unfolding decode_token login_reply
    list_pull_requests owner repo settings opts = do
      login ← or_wrapped token_text (decode_token corrupt settings.token)
      login_reply owner repo opts login
