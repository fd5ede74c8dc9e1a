-- ===== src/GitHub/PullRequests/Page.antt =====
-- The page that `listPullRequestsWithPostFilter` of internal/services/github/github.go returns.
use gitfusion.Prelude.{
  ℕ, suc, ◌+◌, ◌*◌, ◌≤◌, ◌≡◌, ap, ◌∙◌, none, List, [], map, length, length-map, keep, take,
  take-of_le, drop, leb, GoString, nat_eq, string_eq, pos, go_add, go_sub, go_mul, go_add-pos,
  go_sub-pos, go_mul-pos, int_max, if◌then◌else◌, Bool-cases, inl, inr, arith,
}
use gitfusion.GoError.{ok}
use gitfusion.Models.{PullRequestListOptions}
use gitfusion.GitHub.Types.{GithubPullRequest}
use gitfusion.GitHub.Convert.{matches_state_filter, convert_pull_request}
use gitfusion.GitHub.PullRequests.{
  ListCall, Context, max_pages, respond, finish, page_loop, list_with_post_filter,
}
use gitfusion.GitHub.PullRequests.Scan.{outcome, scan_page_lem}
use gitfusion.GitHub.PullRequests.Laws.{all_prs, page_loop-all_prs}

-- Page `suc q` of the pull requests that match the state.
abbrev pub page_items : GoString → ℕ → ℕ → List GithubPullRequest → List GithubPullRequest
page_items state q per_page prs =
    take per_page (drop (q * per_page) (keep (matches_state_filter state) prs))

abbrev pub options : GoString → ℕ → ℕ → PullRequestListOptions
options state q per_page = record { state = state; page = pos (suc q); per_page = pos per_page }

-- One more than the page's end if the page is full, and else the place of its last item, counted as if
-- every page before it were full.
abbrev pub page_total : GoString → ℕ → ℕ → List GithubPullRequest → ℕ
page_total state q per_page prs =
    if leb per_page (length (drop (q * per_page) (keep (matches_state_filter state) prs)))
    then suc q * per_page + 1
    else q * per_page + length (drop (q * per_page) (keep (matches_state_filter state) prs))

skip_bounds :
    (q d : ℕ)
    → suc q * suc d + 1 ≤ int_max
    → (suc q ≤ int_max)
      × (q * suc d ≤ int_max)
      × (suc q * suc d ≤ int_max)
      × (q * suc d + suc d ≡ suc q * suc d)
skip_bounds q d h = grind arith

skip-pos :
    (q d : ℕ)
    → suc q * suc d + 1 ≤ int_max
    → go_mul (go_sub (pos (suc q)) (pos 1)) (pos (suc d)) ≡ pos (q * suc d)
skip-pos q d h =
    let (b, b', b'', e) = skip_bounds q d h in
    ap (λ z. go_mul z (pos (suc d))) (go_sub-pos (suc q) 1 (omega arith) b ∙ ap pos (omega arith))
    ∙ go_mul-pos q (suc d) b'

finish-outcome :
    (state : GoString) (q d : ℕ) (ws : List GithubPullRequest)
    → suc q * suc d + 1 ≤ int_max
    → finish (options state q (suc d)) (outcome d (q * suc d) ws [])
      ≡ respond
          (options state q (suc d))
          (map convert_pull_request (take (suc d) (drop (q * suc d) ws)))
          (pos (
            if leb (suc d) (length (drop (q * suc d) ws))
            then suc q * suc d + 1
            else q * suc d + length (drop (q * suc d) ws)))
unfolding finish
finish-outcome state q d ws h =
    let (b, b', b'', e) = skip_bounds q d h in
    let rest = drop (q * suc d) ws in
    elim (Bool-cases (leb (suc d) (length rest))) [
      | inl fits ↦ rw fits (
          ap (respond (options state q (suc d)) (map convert_pull_request (take (suc d) rest))) (
            ap (λ z. go_add z (pos 1)) (go_mul-pos (suc q) (suc d) b'')
            ∙ go_add-pos (suc q * suc d) 1 h))
      | inr short ↦
          rw (short, length-map, take-of_le (suc d) rest (ground arith))
            (ap (respond (options state q (suc d)) (map convert_pull_request rest)) (
              ap (λ z. go_add z (pos (length rest))) (skip-pos q d h)
              ∙ go_add-pos (q * suc d) (length rest) (ground arith)))
    ]

-- For every page and page size for which the end of the page fits an `int`: if no page of the API
-- fails and the context lives, the answer is the requested page of the matching pull requests among
-- those of the first 50 API pages, in their order; the total is one more than the end of that page
-- if it is full, and else the number of items on it plus the page size for each page before it, also
-- where the pages before it are not full.
pub list_with_post_filter_lem :
    (list : ListCall) (ctx : Context) (owner repo state gh_state : GoString) (q d : ℕ)
    (prs : List GithubPullRequest)
    → ((n : ℕ) → ctx n ≡ none)
    → all_prs list gh_state max_pages (pos 1) ≡ ok prs
    → suc q * suc d + 1 ≤ int_max
    → list_with_post_filter list ctx owner repo (options state q (suc d)) gh_state
      ≡ ok (
          respond
            (options state q (suc d))
            (map convert_pull_request (page_items state q (suc d) prs))
            (pos (page_total state q (suc d) prs)))
unfolding list_with_post_filter
list_with_post_filter_lem list ctx owner repo state gh_state q d prs alive fetched h =
    ap
      (λ z. page_loop list ctx owner repo (options state q (suc d)) gh_state max_pages (pos 1) z [])
      (skip-pos q d h)
    ∙ page_loop-all_prs list ctx owner repo (options state q (suc d)) gh_state alive max_pages
        (pos 1) (pos (q * suc d)) [] prs fetched
    ∙ ap (λ o. ok (finish (options state q (suc d)) o))
        (scan_page_lem state (suc d) d prs (q * suc d) [] (omega arith))
    ∙ ap ok (finish-outcome state q d (keep (matches_state_filter state) prs) h)
