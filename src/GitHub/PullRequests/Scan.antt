-- ===== src/GitHub/PullRequests/Scan.antt =====
-- The loop over the pull requests of one page, against `take`, `drop` and the filter.
use gitfusion.Prelude.{
  ℕ, zero, suc, ◌+◌, ◌-◌, ◌≡◌, refl, List, [], ◌∷◌, ◌++◌, map, append_assoc, append-nil, length,
  length-append, keep, take, drop, leb, GoString, ℤ, pos, ◌-ℤ◌, if◌then◌else◌, Bool-cases, inl, inr,
  arith,
}
use gitfusion.Models.{PullRequest}
use gitfusion.GitHub.Types.{GithubPullRequest}
use gitfusion.GitHub.Convert.{matches_state_filter, convert_pull_request}
use gitfusion.GitHub.PullRequests.{Scanned, full, more, scan_page}

-- Going on with the next page.
abbrev pub and_then : Scanned → (ℤ → List PullRequest → Scanned) → Scanned
and_then (full r) f = full r
and_then (more s r) f = f s r

-- Two pages one after the other are one page.
pub scan_page-append :
    (state : GoString) (needed : ℤ) (xs ys : List GithubPullRequest) (skip : ℤ)
    (result : List PullRequest)
    → scan_page state needed (xs ++ ys) skip result
      ≡ and_then (scan_page state needed xs skip result) (scan_page state needed ys)
unfolding scan_page
scan_page-append state needed [] ys skip result = refl
scan_page-append state needed (x ∷ xs) ys skip result = ground (
  arith,
  scan_page-append state needed xs ys skip result,
  scan_page-append state needed xs ys (skip -ℤ pos 1) result,
  scan_page-append state needed xs ys skip (result ++ convert_pull_request x ∷ []),
)

abbrev pub wanted : GoString → List GithubPullRequest → List GithubPullRequest
wanted state prs = keep (matches_state_filter state) prs

-- What is left to do: `suc d` more pull requests are needed, and `k` of the wanted ones are skipped.
abbrev pub outcome : ℕ → ℕ → List GithubPullRequest → List PullRequest → Scanned
outcome d k ws result =
    if leb (suc d) (length (drop k ws))
    then full (result ++ map convert_pull_request (take (suc d) (drop k ws)))
    else more (pos (k - length ws)) (result ++ map convert_pull_request (drop k ws))

snoc-outcome :
    (d : ℕ) (x : GithubPullRequest) (ws : List GithubPullRequest) (result : List PullRequest)
    → outcome d 0 ws (result ++ convert_pull_request x ∷ []) ≡ outcome (suc d) 0 (x ∷ ws) result
snoc-outcome d x ws result = ground (
  arith,
  append_assoc result (convert_pull_request x ∷ []) (map convert_pull_request (take (suc d) ws)),
  append_assoc result (convert_pull_request x ∷ []) (map convert_pull_request ws),
)

skip-outcome :
    (d k : ℕ) (x : GithubPullRequest) (ws : List GithubPullRequest) (result : List PullRequest)
    → outcome d k ws result ≡ outcome d (suc k) (x ∷ ws) result
skip-outcome d k x ws result = ground arith

pred_pos : (k : ℕ) → pos (suc k) -ℤ pos 1 ≡ pos k
unfolding ◌-ℤ◌
pred_pos k = ground arith

-- The wanted pull requests, after those to skip and up to those needed.
pub scan_page_lem :
    (state : GoString) (m d : ℕ) (prs : List GithubPullRequest) (k : ℕ) (result : List PullRequest)
    → m ≡ length result + suc d
    → scan_page state (pos m) prs (pos k) result ≡ outcome d k (wanted state prs) result
unfolding scan_page
scan_page_lem state m d [] zero result h = ground (arith, append-nil result)
scan_page_lem state m d [] (suc k) result h = ground (arith, append-nil result)
scan_page_lem state m zero (x ∷ xs) zero result h =
    elim (Bool-cases (matches_state_filter state x)) [
      | inl e ↦ rw e (ground (arith, length-append result (convert_pull_request x ∷ [])))
      | inr e ↦ rw e (scan_page_lem state m zero xs zero result h)
    ]
scan_page_lem state m (suc d) (x ∷ xs) zero result h =
    elim (Bool-cases (matches_state_filter state x)) [
      | inl e ↦
          let taken = result ++ convert_pull_request x ∷ [] in
          let size = length-append result (convert_pull_request x ∷ []) in
          rw e (
            ground (
              arith,
              size,
              scan_page_lem state m d xs zero taken (omega (arith, size)),
              snoc-outcome d x (wanted state xs) result,
            ))
      | inr e ↦ rw e (scan_page_lem state m (suc d) xs zero result h)
    ]
scan_page_lem state m d (x ∷ xs) (suc k) result h =
    elim (Bool-cases (matches_state_filter state x)) [
      | inl e ↦
          rw (e, pred_pos)
            (ground (
              arith,
              scan_page_lem state m d xs k result h,
              skip-outcome d k x (wanted state xs) result,
            ))
      | inr e ↦ rw e (scan_page_lem state m d xs (suc k) result h)
    ]
