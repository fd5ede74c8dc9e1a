-- ===== src/Api/PullRequests.antt =====
-- internal/api/pullrequest_handler.go, written against the interface `pullRequestLister`.
use gitfusion.Prelude.{Option, none, some, GoString, str, ℤ}
use gitfusion.GoError.{Result, ok, err}
use gitfusion.Models.{PullRequestsResponse, PullRequestListOptions}
use gitfusion.Api.Pagination.{clamp_pagination}
use gitfusion.Api.Responses.{Response, success, pull_request_error}

pub record ListParams : Type 0 where
  pub git_server : GoString
  pub owner : GoString
  pub repo_name : GoString
  pub state : Option GoString
  pub page : Option ℤ
  pub per_page : Option ℤ

abbrev pub state_or_open : Option GoString → GoString
state_or_open none = str "open"
state_or_open (some s) = s

unfoldable pub list_options : ListParams → PullRequestListOptions
unfolding clamp_pagination
list_options q = record {
  state = state_or_open q.state;
  page = (clamp_pagination q.page q.per_page).0;
  per_page = (clamp_pagination q.page q.per_page).1;
}

abbrev pub answer : Result PullRequestsResponse → Response PullRequestsResponse
answer (ok r) = success 200 r
answer (err e) = pull_request_error e

-- `pullRequestLister` has one method, and any type as its state.
module _ {S : Type 0}
    (lister : GoString
      → GoString
      → GoString
      → PullRequestListOptions
      → S
      → Result PullRequestsResponse × S) where
  unfoldable pub list_pull_requests : ListParams → S → Response PullRequestsResponse × S
  unfolding list_options
  list_pull_requests q s =
      let result = lister q.git_server q.owner q.repo_name (list_options q) s in
      (answer result.0, result.1)
