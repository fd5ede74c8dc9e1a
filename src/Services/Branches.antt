-- ===== src/Services/Branches.antt =====
-- internal/services/branches: the branches of a repository, through the branch cache.
use gitfusion.Prelude.{◌≡◌, refl, List, [], ◌∷◌, GoString, All}
use gitfusion.GoError.{Result, ok}
use gitfusion.Models.{GitServerSettings, Branch, ListOptions}
use gitfusion.Common.{value_or_empty}
use gitfusion.Cache.Client.{FetchingClient}
use gitfusion.Services.Keys.{join_bar, NoBar, join_bar-injective}
use gitfusion.Services.Provider.{Provider, unsupported}
use gitfusion.Services.Krci.{Cluster}
use gitfusion.Services.Dispatch.{
  dispatch, ServiceState, serve, IsSound, IsServed, serve-dispatch-IsServed,
}

-- What the key of a request prints.
pub record BranchRequest : Type 0 where
  pub git_server : GoString
  pub owner : GoString
  pub repo : GoString
  pub name : GoString

abbrev pub branch_fields : BranchRequest → List GoString
branch_fields r = r.git_server ∷ r.owner ∷ r.repo ∷ r.name ∷ []

unfoldable pub branch_key : BranchRequest → GoString
branch_key r = join_bar (branch_fields r)

pub branch_key-injective :
    (r q : BranchRequest) → All NoBar (branch_fields r) → branch_key r ≡ branch_key q → r ≡ q
unfolding branch_key
branch_key-injective r q p e = cc (
    join_bar-injective r.git_server q.git_server (r.owner ∷ r.repo ∷ r.name ∷ [])
      (q.owner ∷ q.repo ∷ q.name ∷ []) refl p e)

-- The provider implementations, the cluster and the two caches are parameters.
module _
    (list_of : Provider
      → GoString
      → GoString
      → GitServerSettings
      → ListOptions
      → Result (List Branch))
    (k : Cluster) (g : FetchingClient GitServerSettings) (f : FetchingClient (List Branch)) where
  abbrev pub request : GoString → GoString → GoString → ListOptions → BranchRequest
  request server owner repo opts = record {
    git_server = server;
    owner = owner;
    repo = repo;
    name = value_or_empty opts.name;
  }

  -- `(*MultiProviderBranchesService).ListBranches`
  unfoldable pub multi_list_branches :
      GoString
      → GoString
      → GitServerSettings
      → ListOptions
      → f.client.Store
      → Result (List Branch) × f.client.Store
  unfolding dispatch
  multi_list_branches owner repo settings opts s =
      dispatch f settings.git_provider (unsupported settings.git_provider)
        (branch_key (request settings.git_server_name owner repo opts))
        (λ p. list_of p owner repo settings opts) s

  -- `(*BranchesService).ListBranches`
  unfoldable pub list_branches :
      GoString
      → GoString
      → GoString
      → ListOptions
      → ServiceState g f.client.Store
      → Result (List Branch) × ServiceState g f.client.Store
  unfolding multi_list_branches serve
  list_branches server owner repo opts s =
      serve k g server (λ settings. multi_list_branches owner repo settings opts) s

  -- `Answers` stands for any property of an answer that follows from a provider having given it.
  module _ (Answers : BranchRequest → List Branch → Type 0)
      (truthful : (p : Provider) (owner repo : GoString) (settings : GitServerSettings)
          (opts : ListOptions) (v : List Branch)
        → list_of p owner repo settings opts ≡ ok v
        → Answers (request settings.git_server_name owner repo opts) v) where
    -- From a sound state, the state stays sound; and branches that are returned for a request whose
    -- fields have no `|`, cached or fresh, are a provider's answer to that very request.
    pub list_branches-IsServed :
        (server owner repo : GoString) (opts : ListOptions) (s : ServiceState g f.client.Store)
        → IsSound k g f branch_key (λ r. All NoBar (branch_fields r)) Answers branch_key-injective s
        → IsServed k g f branch_key
            (λ r. All NoBar (branch_fields r))
            Answers
            branch_key-injective
            (request server owner repo opts)
            (list_branches server owner repo opts s)
    unfolding list_branches
    list_branches-IsServed server owner repo opts s h =
        serve-dispatch-IsServed k g f branch_key _ Answers branch_key-injective server _
          (λ n. request n owner repo opts) (λ settings p. list_of p owner repo settings opts) s
          (λ settings p v e. truthful p owner repo settings opts v e) h

    -- From a sound state, branches returned for a request whose fields have no `|` have every
    -- property that a provider's answer to that very request has.
    pub list_branches-Answers :
        (server owner repo : GoString) (opts : ListOptions) (s : ServiceState g f.client.Store)
        (v : List Branch)
        → IsSound k g f branch_key (λ r. All NoBar (branch_fields r)) Answers branch_key-injective s
        → All NoBar (branch_fields (request server owner repo opts))
        → (list_branches server owner repo opts s).0 ≡ ok v
        → Answers (request server owner repo opts) v
    list_branches-Answers server owner repo opts s v h p e =
        (list_branches-IsServed server owner repo opts s h).answer v p e
