-- ===== src/GitHub/PullRequests/Laws.antt =====
-- What `listPullRequestsWithPostFilter` returns, against the list of all pull requests.
use gitfusion.Prelude.{
  ℕ, zero, suc, ◌≡◌, refl, ap, sym, ◌∙◌, Bool, true, false, none, List, [], ◌++◌, GoString, ◌==◌,
  nat_eq, int_eq, string_eq, ℤ, pos, inl, inr, arith,
}
use gitfusion.GoError.{Result, ok, err, ◌>>=◌, >>=-eq-ok, Result-cases, ok-injective}
use gitfusion.Models.{PullRequest, PullRequestsResponse, PullRequestListOptions}
use gitfusion.GitHub.Types.{GithubPullRequest}
use gitfusion.GitHub.PullRequests.{
  ListCall, Context, page_size, Scanned, full, more, scan_page, finish, after_page, page_loop,
}
use gitfusion.GitHub.PullRequests.Scan.{and_then, scan_page-append}

-- The pull requests of the first `n` pages at most, from a page on, following `NextPage`.
gather :
    Bool
    → List GithubPullRequest
    → Result (List GithubPullRequest)
    → Result (List GithubPullRequest)
gather true prs rest = ok prs
gather false prs rest = rest >>= λ others. ok (prs ++ others)

unfoldable pub all_prs : ListCall → GoString → ℕ → ℤ → Result (List GithubPullRequest)
unfolding gather
all_prs list gh_state zero page = ok []
all_prs list gh_state (suc n) page = elim (list gh_state page page_size) [
  | err e ↦ err e
  | ok (prs, resp) ↦ gather (resp.next_page == pos 0) prs (all_prs list gh_state n resp.next_page)
]

module _ (list : ListCall) (ctx : Context) (owner repo : GoString) (opts : PullRequestListOptions)
    (gh_state : GoString) (alive : (n : ℕ) → ctx n ≡ none) where
  after_page-and_then :
      (next : ℤ → List PullRequest → Result PullRequestsResponse) (rest : List GithubPullRequest)
      → ((s : ℤ) (r : List PullRequest)
          → next s r ≡ ok (finish opts (scan_page opts.state opts.per_page rest s r)))
      → (o : Scanned)
      → after_page opts false next o
        ≡ ok (finish opts (and_then o (scan_page opts.state opts.per_page rest)))
  unfolding after_page
  after_page-and_then next rest ih (full r) = refl
  after_page-and_then next rest ih (more s r) = ih s r

  after_page-last :
      (next : ℤ → List PullRequest → Result PullRequestsResponse) (o : Scanned)
      → after_page opts true next o ≡ ok (finish opts o)
  unfolding after_page
  after_page-last next (full r) = refl
  after_page-last next (more s r) = refl

  -- One page, given what holds of the pages after it.
  one_page :
      (n : ℕ) (skip : ℤ) (result : List PullRequest) (prs first : List GithubPullRequest) (next : ℤ)
      (last : Bool)
      → ((s : ℤ) (r : List PullRequest) (l : List GithubPullRequest)
          → all_prs list gh_state n next ≡ ok l
          → page_loop list ctx owner repo opts gh_state n next s r
            ≡ ok (finish opts (scan_page opts.state opts.per_page l s r)))
      → gather last first (all_prs list gh_state n next) ≡ ok prs
      → after_page opts last
          (λ s r. page_loop list ctx owner repo opts gh_state n next s r)
          (scan_page opts.state opts.per_page first skip result)
        ≡ ok (finish opts (scan_page opts.state opts.per_page prs skip result))
  unfolding gather
  one_page n skip result prs first next true ih h =
      after_page-last _ _
      ∙ ap (λ l. ok (finish opts (scan_page opts.state opts.per_page l skip result)))
          (ok-injective h)
  one_page n skip result prs first next false ih h =
      let (rest, read, joined) = >>=-eq-ok (all_prs list gh_state n next) _ h in
      after_page-and_then _ rest (λ s r. ih s r rest read)
        (scan_page opts.state opts.per_page first skip result)
      ∙ ap (λ o. ok (finish opts o))
          (sym (scan_page-append opts.state opts.per_page first rest skip result))
      ∙ ap (λ l. ok (finish opts (scan_page opts.state opts.per_page l skip result)))
          (ok-injective joined)

  -- Without errors the loop over the pages is the loop over all their pull requests.
  pub page_loop-all_prs :
      (n : ℕ) (page skip : ℤ) (result : List PullRequest) (prs : List GithubPullRequest)
      → all_prs list gh_state n page ≡ ok prs
      → page_loop list ctx owner repo opts gh_state n page skip result
        ≡ ok (finish opts (scan_page opts.state opts.per_page prs skip result))
  unfolding page_loop all_prs
  page_loop-all_prs zero page skip result prs h = ground (arith, alive 0)
  page_loop-all_prs (suc n) page skip result prs h =
      elim (Result-cases (list gh_state page page_size)) [
        | inr (e, failed) ↦ ground (arith, failed)
        | inl ((first, resp), read) ↦
            rw (alive (suc n), page_loop)
              (rw (read, page_loop)
                (one_page n skip result prs first resp.next_page (resp.next_page == pos 0)
                  (λ s r l e. page_loop-all_prs n resp.next_page s r l e)
                  (rw (read, all_prs) at h)))
      ]
