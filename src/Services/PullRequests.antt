-- ===== src/Services/PullRequests.antt =====
-- internal/services/pullrequests: a page of pull requests, through the pull request cache.
use gitfusion.Prelude.{◌≡◌, refl, List, [], ◌∷◌, GoString, All, ℤ, itoa, itoa_injective}
use gitfusion.GoError.{Result, ok}
use gitfusion.Models.{GitServerSettings, PullRequestsResponse, PullRequestListOptions}
use gitfusion.Cache.Client.{FetchingClient}
use gitfusion.Services.Keys.{join_bar, NoBar, join_bar-injective}
use gitfusion.Services.Provider.{Provider, unsupported}
use gitfusion.Services.Krci.{Cluster}
use gitfusion.Services.Dispatch.{
  dispatch, ServiceState, serve, IsSound, IsServed, serve-dispatch-IsServed,
}

-- What the key of a request prints.
pub record PullRequestsRequest : Type 0 where
  pub git_server : GoString
  pub owner : GoString
  pub repo : GoString
  pub state : GoString
  pub page : ℤ
  pub per_page : ℤ

abbrev pub pull_request_fields : PullRequestsRequest → List GoString
pull_request_fields r =
    r.git_server ∷ r.owner ∷ r.repo ∷ r.state ∷ itoa r.page ∷ itoa r.per_page ∷ []

unfoldable pub pull_request_key : PullRequestsRequest → GoString
pull_request_key r = join_bar (pull_request_fields r)

pub pull_request_key-injective :
    (r q : PullRequestsRequest)
    → All NoBar (pull_request_fields r)
    → pull_request_key r ≡ pull_request_key q
    → r ≡ q
unfolding pull_request_key
pull_request_key-injective r q p e =
    let same =
      join_bar-injective r.git_server q.git_server
        (r.owner ∷ r.repo ∷ r.state ∷ itoa r.page ∷ itoa r.per_page ∷ [])
        (q.owner ∷ q.repo ∷ q.state ∷ itoa q.page ∷ itoa q.per_page ∷ []) refl p e in
    cc
      (same, itoa_injective r.page q.page (cc same), itoa_injective r.per_page q.per_page (cc same))

-- The provider implementations, the cluster and the two caches are parameters.
module _
    (list_of : Provider
      → GoString
      → GoString
      → GitServerSettings
      → PullRequestListOptions
      → Result PullRequestsResponse)
    (k : Cluster) (g : FetchingClient GitServerSettings)
    (f : FetchingClient PullRequestsResponse) where
  abbrev pub request : GoString → GoString → GoString → PullRequestListOptions → PullRequestsRequest
  request server owner repo opts = record {
    git_server = server;
    owner = owner;
    repo = repo;
    state = opts.state;
    page = opts.page;
    per_page = opts.per_page;
  }

  -- `(*MultiProviderPullRequestsService).ListPullRequests`
  unfoldable pub multi_list_pull_requests :
      GoString
      → GoString
      → GitServerSettings
      → PullRequestListOptions
      → f.client.Store
      → Result PullRequestsResponse × f.client.Store
  unfolding dispatch
  multi_list_pull_requests owner repo settings opts s =
      dispatch f settings.git_provider (unsupported settings.git_provider)
        (pull_request_key (request settings.git_server_name owner repo opts))
        (λ p. list_of p owner repo settings opts) s

  -- `(*PullRequestsService).ListPullRequests`
  unfoldable pub list_pull_requests :
      GoString
      → GoString
      → GoString
      → PullRequestListOptions
      → ServiceState g f.client.Store
      → Result PullRequestsResponse × ServiceState g f.client.Store
  unfolding multi_list_pull_requests serve
  list_pull_requests server owner repo opts s =
      serve k g server (λ settings. multi_list_pull_requests owner repo settings opts) s

  -- `Answers` stands for any property of an answer that follows from a provider having given it.
  module _ (Answers : PullRequestsRequest → PullRequestsResponse → Type 0)
      (truthful : (p : Provider) (owner repo : GoString) (settings : GitServerSettings)
          (opts : PullRequestListOptions) (v : PullRequestsResponse)
        → list_of p owner repo settings opts ≡ ok v
        → Answers (request settings.git_server_name owner repo opts) v) where
    -- From a sound state, the state stays sound; and a page that is returned for a request whose
    -- text fields have no `|`, cached or fresh, is a provider's answer to that very request.
    pub list_pull_requests-IsServed :
        (server owner repo : GoString) (opts : PullRequestListOptions)
        (s : ServiceState g f.client.Store)
        → IsSound k g f pull_request_key
            (λ r. All NoBar (pull_request_fields r))
            Answers
            pull_request_key-injective
            s
        → IsServed k g f pull_request_key
            (λ r. All NoBar (pull_request_fields r))
            Answers
            pull_request_key-injective
            (request server owner repo opts)
            (list_pull_requests server owner repo opts s)
    unfolding list_pull_requests
    list_pull_requests-IsServed server owner repo opts s h =
        serve-dispatch-IsServed k g f pull_request_key _ Answers pull_request_key-injective server _
          (λ n. request n owner repo opts) (λ settings p. list_of p owner repo settings opts) s
          (λ settings p v e. truthful p owner repo settings opts v e) h

    -- From a sound state, a page returned for a request whose text fields have no `|` has every
    -- property that a provider's answer to that very request has.
    pub list_pull_requests-Answers :
        (server owner repo : GoString) (opts : PullRequestListOptions)
        (s : ServiceState g f.client.Store) (v : PullRequestsResponse)
        → IsSound k g f pull_request_key
            (λ r. All NoBar (pull_request_fields r))
            Answers
            pull_request_key-injective
            s
        → All NoBar (pull_request_fields (request server owner repo opts))
        → (list_pull_requests server owner repo opts s).0 ≡ ok v
        → Answers (request server owner repo opts) v
    list_pull_requests-Answers server owner repo opts s v h p e =
        (list_pull_requests-IsServed server owner repo opts s h).answer v p e
