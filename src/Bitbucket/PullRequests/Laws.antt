-- ===== src/Bitbucket/PullRequests/Laws.antt =====
-- The answers of Bitbucket's list of pull requests.
use gitfusion.Prelude.{
  ◌≤◌, ◌<◌, ◌||◌, ◌==◌, string_eq, nat_eq, eq_str, ◌≡◌, refl, sym, ap, ◌∙◌, true, some, All, List,
  [], ◌∷◌, ◌++◌, map, GoString, str, if◌then◌else◌,
}
use gitfusion.GoError.{
  GoError, Result, ok, err, ◌>>=◌, >>=-eq-ok, ok-injective, is_error, not_found, unauthorized,
}
use gitfusion.Models.{
  Time, PullRequest, PullRequestState, PullRequestsResponse, PullRequestListOptions,
  GitServerSettings, state_string,
}
use gitfusion.Bitbucket.Types.{BitbucketPullRequest, Answer}
use gitfusion.Bitbucket.Token.{decode_token}
use gitfusion.Bitbucket.Convert.{convert_state, state_query, state_query-convert_state}
use gitfusion.Bitbucket.Calls.{Request, Get, found, found-eq-ok, found-is_error, each, each-All}
use gitfusion.Bitbucket.Lists.{or_wrapped, or_wrapped-eq-ok}
use gitfusion.Bitbucket.PullRequests.{
  read_time, pull_requests_query, pull_request_of, convert_pull_request, missing_text, failed_text,
  token_text, page_reply, answer_reply, login_reply, pull_requests_request, list_pull_requests,
}

-- The states among the query parameters.
unfoldable pub states : List (GoString × GoString) → List GoString
states [] = []
states ((key, value) ∷ query) =
    let rest = states query in if key == str "state" then value ∷ rest else rest

states-map : (values : List GoString) → states (map (λ s. (str "state", s)) values) ≡ values
unfolding states eq_str
states-map [] = refl
states-map (v ∷ values) = ap (λ l. v ∷ l) (states-map values)

states-pull_requests_query :
    (opts : PullRequestListOptions) → states (pull_requests_query opts) ≡ state_query opts.state
unfolding states pull_requests_query eq_str
states-pull_requests_query opts = states-map (state_query opts.state)

module _ (parse_time : GoString → Result Time) (quote : GoString → GoString) where
  convert_pull_request-state :
      (pr : BitbucketPullRequest) (p : PullRequest)
      → convert_pull_request parse_time quote pr ≡ ok p
      → p.state ≡ convert_state pr.state
  unfolding convert_pull_request pull_request_of
  convert_pull_request-state pr p h =
      let (created, _, h1) =
        >>=-eq-ok (read_time parse_time quote (str "created_on") pr.created_on)
          (λ c. read_time parse_time quote (str "updated_on") pr.updated_on >>= λ u.
            ok (pull_request_of pr c u))
          h in
      let (updated, _, h2) =
        >>=-eq-ok (read_time parse_time quote (str "updated_on") pr.updated_on)
          (λ u. ok (pull_request_of pr created u)) h1 in
      sym (ap (λ q. q.state) (ok-injective h2))

  module _ (corrupt : GoString → GoError) (get : Get BitbucketPullRequest) where
    -- What stands behind an answer: one response without an error status, to the request for the user
    -- of the token, and the conversions of all its values.
    abbrev pub IsAnswered :
        GoString
        → GoString
        → GitServerSettings
        → PullRequestListOptions
        → PullRequestsResponse
        → Type 0
    IsAnswered owner repo settings opts r =
        (login : GoString × GoString) × (answer : Answer BitbucketPullRequest) × (decode_token
            corrupt settings.token
          ≡ ok login)
        × (get (pull_requests_request parse_time quote corrupt get owner repo login opts)
            ≡ ok answer)
        × (answer.status ≤ 399)
        × (each (convert_pull_request parse_time quote) answer.page.values ≡ ok r.items)
        × (r.pagination ≡ record {
          page = some opts.page;
          per_page = some opts.per_page;
          total = answer.page.size;
        })

    pub list_pull_requests-eq-ok :
        (owner repo : GoString) (settings : GitServerSettings) (opts : PullRequestListOptions)
        (r : PullRequestsResponse)
        → list_pull_requests parse_time quote corrupt get owner repo settings opts ≡ ok r
        → IsAnswered owner repo settings opts r
    unfolding list_pull_requests login_reply answer_reply page_reply
    list_pull_requests-eq-ok owner repo settings opts r h =
        let (login, decoded, h1) =
          >>=-eq-ok (or_wrapped token_text (decode_token corrupt settings.token))
            (login_reply parse_time quote corrupt get owner repo opts) h in
        let (answer, got, h2) =
          >>=-eq-ok
            (or_wrapped (failed_text owner repo ++ str ": ")
              (get (pull_requests_request parse_time quote corrupt get owner repo login opts)))
            (answer_reply parse_time quote corrupt get owner repo opts) h1 in
        let (page, read, h3) =
          >>=-eq-ok (found (missing_text owner repo) true (failed_text owner repo) answer)
            (page_reply parse_time quote corrupt get opts) h2 in
        let (items, converted, last) =
          >>=-eq-ok (each (convert_pull_request parse_time quote) page.values)
            (λ items. ok (record {
              items = items;
              pagination = record {
                page = some opts.page;
                per_page = some opts.per_page;
                total = page.size;
              };
            }))
            h3 in
        let (below, same) =
          found-eq-ok (missing_text owner repo) true (failed_text owner repo) answer page read in
        (
          login,
          answer,
          or_wrapped-eq-ok token_text (decode_token corrupt settings.token) decoded,
          or_wrapped-eq-ok (failed_text owner repo ++ str ": ")
              (get (pull_requests_request parse_time quote corrupt get owner repo login opts)) got,
          below,
          ap (λ p. each (convert_pull_request parse_time quote) p.values) same
              ∙ converted
              ∙ ap (λ r'. ok r'.items) (ok-injective last),
          sym (ap (λ r'. r'.pagination) (ok-injective last))
              ∙ ap
                  (λ p. record {
                    page = some opts.page;
                    per_page = some opts.per_page;
                    total = p.size;
                  })
                  (sym same),
        )

    -- What an answer of Bitbucket holds is what was asked for: `get` gives no value of another state.
    abbrev pub IsFilteredByState : Type 0
    IsFilteredByState =
        (request : Request) (answer : Answer BitbucketPullRequest) (state : GoString)
        → get request ≡ ok answer
        → states request.query ≡ state ∷ []
        → answer.status ≤ 399
        → All (λ pr. pr.state ≡ state) answer.page.values

    -- If Bitbucket gives only pull requests of the state that it is asked for, then a list that is
    -- filtered by a unified state has only pull requests of that unified state.
    pub list_pull_requests-of_state :
        (owner repo : GoString) (settings : GitServerSettings) (opts : PullRequestListOptions)
        (s : PullRequestState) (r : PullRequestsResponse)
        → IsFilteredByState
        → opts.state ≡ state_string s
        → list_pull_requests parse_time quote corrupt get owner repo settings opts ≡ ok r
        → All (λ p. p.state ≡ s) r.items
    unfolding list_pull_requests
    list_pull_requests-of_state owner repo settings opts s r honest asked h =
        let (login, answer, decoded, got, below, converted, pages) =
          list_pull_requests-eq-ok owner repo settings opts r h in
        let (v, only, back) = state_query-convert_state s in
        each-All (convert_pull_request parse_time quote) (λ pr. pr.state ≡ v) (λ p. p.state ≡ s)
          answer.page.values r.items
          (λ pr p e converts. convert_pull_request-state pr p converts ∙ ap convert_state e ∙ back)
          converted
          (honest (pull_requests_request parse_time quote corrupt get owner repo login opts) answer
            v got (states-pull_requests_query opts ∙ ap state_query asked ∙ only) below)

    -- If Bitbucket answers the request for the user of the token with an error status, the error is
    -- `not found` exactly for 404 and `unauthorized` exactly for 401 and 403.
    pub list_pull_requests-refused :
        (owner repo : GoString) (settings : GitServerSettings) (opts : PullRequestListOptions)
        (login : GoString × GoString) (answer : Answer BitbucketPullRequest)
        → decode_token corrupt settings.token ≡ ok login
        → get (pull_requests_request parse_time quote corrupt get owner repo login opts) ≡ ok answer
        → 399 < answer.status
        → (e : GoError) × (list_pull_requests parse_time quote corrupt get owner repo settings opts
            ≡ err e)
          × (is_error e not_found ≡ (answer.status == 404))
          × (is_error e unauthorized ≡ (answer.status == 401 || answer.status == 403))
    unfolding list_pull_requests login_reply answer_reply
    list_pull_requests-refused owner repo settings opts login answer decoded got bad =
        let (e, failed, a, b) =
          found-is_error (missing_text owner repo) true (failed_text owner repo) answer bad in
        (e, rw (decoded, got, failed) refl, a, b)
