-- ===== src/GitHub/PullRequests.antt =====
-- Listing pull requests: `ListPullRequests`, `listPullRequestsDirect` and
-- `listPullRequestsWithPostFilter` of internal/services/github/github.go.
pub mod Scan
pub mod Laws
pub mod Page
use gitfusion.Prelude.{
  ℕ, zero, suc, ◌≡◌, Bool, true, false, not, ◌||◌, Option, none, some, List, [], ◌∷◌, ◌++◌, map,
  length, GoString, str, ◌==◌, nat_eq, int_eq, string_eq, ℤ, pos, ltb_ℤ, leb_ℤ, ◌-ℤ◌, go_add,
  go_sub, go_mul, if◌then◌else◌,
}
use gitfusion.GoError.{GoError, Result, ok, err, wrapped, ◌>>=◌}
use gitfusion.Models.{PullRequest, PullRequestsResponse, PullRequestListOptions, Pagination}
use gitfusion.GitHub.Types.{GithubPullRequest, Response}
use gitfusion.GitHub.Convert.{
  github_error, map_state_to_github, matches_state_filter, convert_pull_request,
}

-- `client.PullRequests.List` for the state, the page and the page size
abbrev pub ListCall : Type 0
ListCall = GoString → ℤ → ℤ → Result (List GithubPullRequest × Response)

abbrev pub page_size : ℤ
page_size = pos 100

abbrev pub max_pages : ℕ
max_pages = 50

abbrev pub respond : PullRequestListOptions → List PullRequest → ℤ → PullRequestsResponse
respond opts items total = record {
  items = items;
  pagination = record { page = some opts.page; per_page = some opts.per_page; total = total };
}

list_error : GoString → GoString → GoError → GoError
unfolding github_error
list_error owner repo e =
    github_error (str "repository " ++ owner ++ str "/" ++ repo ++ str ": ")
      (str "failed to list pull requests for " ++ owner ++ str "/" ++ repo ++ str ": ") e

unfoldable pub direct_total : PullRequestListOptions → ℕ → ℤ → ℤ
direct_total opts count last_page =
    if ltb_ℤ (pos 0) last_page
    then go_mul last_page opts.per_page
    else if ltb_ℤ (pos count) opts.per_page
    then go_add (go_mul (go_sub opts.page (pos 1)) opts.per_page) (pos count)
    else go_mul opts.page opts.per_page

unfoldable pub list_direct :
    ListCall → GoString → GoString → PullRequestListOptions → GoString → Result PullRequestsResponse
unfolding list_error direct_total convert_pull_request
list_direct list owner repo opts gh_state = elim (list gh_state opts.page opts.per_page) [
  | err e ↦ err (list_error owner repo e)
  | ok (prs, resp) ↦
      ok (
        respond opts (map convert_pull_request prs) (direct_total opts (length prs) resp.last_page))
]

-- The loop over one page: it has filled the requested page, or it goes on with what is left to
-- skip and what it has collected.
pub data Scanned : Type 0 where
  full : List PullRequest → Scanned
  more : ℤ → List PullRequest → Scanned

unfoldable pub scan_page : GoString → ℤ → List GithubPullRequest → ℤ → List PullRequest → Scanned
scan_page state needed [] skip result = more skip result
scan_page state needed (pr ∷ prs) skip result =
    let next = scan_page state needed prs skip result in
    let skipped = scan_page state needed prs (skip -ℤ pos 1) result in
    let taken = result ++ convert_pull_request pr ∷ [] in
    let kept = scan_page state needed prs skip taken in
    if not (matches_state_filter state pr)
    then next
    else if ltb_ℤ (pos 0) skip
    then skipped
    else if leb_ℤ needed (pos (length taken))
    then full taken
    else kept

-- The answer once the requested page is full, and the one when the pages have run out.
pub finish : PullRequestListOptions → Scanned → PullRequestsResponse
unfolding go_add go_mul go_sub
finish opts (full result) = respond opts result (go_add (go_mul opts.page opts.per_page) (pos 1))
finish opts (more skip result) =
    respond opts result
      (go_add (go_mul (go_sub opts.page (pos 1)) opts.per_page) (pos (length result)))

-- `ctx.Err()` at the check before each page, by the number of pages still allowed.
abbrev pub Context : Type 0
Context = ℕ → Option GoError

-- After a page: return the full page, stop at the last page, or go on with the next one.
after_page :
    PullRequestListOptions
    → Bool
    → (ℤ → List PullRequest → Result PullRequestsResponse)
    → Scanned
    → Result PullRequestsResponse
unfolding finish
after_page opts last next (full result) = ok (finish opts (full result))
after_page opts last next (more skip result) =
    let rest = next skip result in if last then ok (finish opts (more skip result)) else rest

context_error : GoString → GoString → GoError → GoError
context_error owner repo e =
    wrapped (str "failed to list pull requests for " ++ owner ++ str "/" ++ repo ++ str ": ") e

-- The loop over pages. Its number counts the pages that may still be queried, down from 50.
unfoldable pub page_loop :
    ListCall
    → Context
    → GoString
    → GoString
    → PullRequestListOptions
    → GoString
    → ℕ
    → ℤ
    → ℤ
    → List PullRequest
    → Result PullRequestsResponse
unfolding scan_page finish list_error context_error after_page
page_loop list ctx owner repo opts gh_state zero gh_page skip result = elim (ctx zero) [
  | some e ↦ err (context_error owner repo e)
  | none ↦ ok (finish opts (more skip result))
]
page_loop list ctx owner repo opts gh_state (suc n) gh_page skip result = elim (ctx (suc n)) [
  | some e ↦ err (context_error owner repo e)
  | none ↦ elim (list gh_state gh_page page_size) [
    | err e ↦ err (list_error owner repo e)
    | ok (prs, resp) ↦
        after_page opts (resp.next_page == pos 0)
          (λ skip' result'.
            page_loop list ctx owner repo opts gh_state n resp.next_page skip' result')
          (scan_page opts.state opts.per_page prs skip result)
  ]
]

unfoldable pub list_with_post_filter :
    ListCall
    → Context
    → GoString
    → GoString
    → PullRequestListOptions
    → GoString
    → Result PullRequestsResponse
unfolding page_loop go_mul go_sub
list_with_post_filter list ctx owner repo opts gh_state =
    page_loop list ctx owner repo opts gh_state max_pages (pos 1)
      (go_mul (go_sub opts.page (pos 1)) opts.per_page) []

-- `(*GitHubProvider).ListPullRequests`
unfoldable pub list_pull_requests :
    ListCall → Context → GoString → GoString → PullRequestListOptions → Result PullRequestsResponse
unfolding list_with_post_filter list_direct map_state_to_github
list_pull_requests list ctx owner repo opts =
    if opts.state == str "merged" || opts.state == str "closed"
    then list_with_post_filter list ctx owner repo opts (map_state_to_github opts.state)
    else list_direct list owner repo opts (map_state_to_github opts.state)
