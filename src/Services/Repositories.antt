-- ===== src/Services/Repositories.antt =====
-- internal/services/repositories: the repositories of an owner, through the repository cache, and a
-- single repository, which is never cached.
use gitfusion.Prelude.{◌≡◌, refl, Option, none, some, List, [], ◌∷◌, GoString, All, arith}
use gitfusion.GoError.{GoError, Result, ok, err, ◌>>=◌}
use gitfusion.Models.{GitServerSettings, Repository, ListOptions}
use gitfusion.Common.{value_or_empty}
use gitfusion.Cache.Client.{FetchingClient}
use gitfusion.Services.Keys.{join_bar, NoBar, join_bar-injective}
use gitfusion.Services.Provider.{Provider, provider_of, unsupported}
use gitfusion.Services.Krci.{Cluster, get_settings, IsUsableCache, get_settings-then}
use gitfusion.Services.Dispatch.{
  dispatch, ServiceState, serve, IsSound, IsServed, serve-dispatch-IsServed,
}

-- What the key of a request prints.
pub record RepositoriesRequest : Type 0 where
  pub git_server : GoString
  pub owner : GoString
  pub name : GoString

abbrev pub repository_fields : RepositoriesRequest → List GoString
repository_fields r = r.git_server ∷ r.owner ∷ r.name ∷ []

unfoldable pub repository_key : RepositoriesRequest → GoString
repository_key r = join_bar (repository_fields r)

pub repository_key-injective :
    (r q : RepositoriesRequest)
    → All NoBar (repository_fields r)
    → repository_key r ≡ repository_key q
    → r ≡ q
unfolding repository_key
repository_key-injective r q p e = cc (
    join_bar-injective r.git_server q.git_server (r.owner ∷ r.name ∷ []) (q.owner ∷ q.name ∷ [])
      refl p e)

-- `(*MultiProviderRepositoryService).GetRepository`
get_from : (Provider → Result Repository) → GoError → Option Provider → Result Repository
get_from call e none = err e
get_from call e (some p) = call p

-- The provider implementations, the cluster and the two caches are parameters.
module _ (get_of : Provider → GoString → GoString → GitServerSettings → Result Repository)
    (list_of : Provider → GoString → GitServerSettings → ListOptions → Result (List Repository))
    (k : Cluster) (g : FetchingClient GitServerSettings)
    (f : FetchingClient (List Repository)) where
  abbrev pub request : GoString → GoString → ListOptions → RepositoriesRequest
  request server owner opts = record {
    git_server = server;
    owner = owner;
    name = value_or_empty opts.name;
  }

  unfoldable pub multi_get_repository : GoString → GoString → GitServerSettings → Result Repository
  unfolding get_from
  multi_get_repository owner repo settings =
      get_from (λ p. get_of p owner repo settings) (unsupported settings.git_provider)
        (provider_of settings.git_provider)

  -- `(*RepositoriesService).GetRepository`
  unfoldable pub get_repository :
      GoString → GoString → GoString → g.client.Store → Result Repository × g.client.Store
  unfolding multi_get_repository
  get_repository server owner repo s =
      let got = get_settings k g server s in (got.0 >>= multi_get_repository owner repo, got.1)

  multi_get_repository-eq-ok :
      (owner repo : GoString) (settings : GitServerSettings) (v : Repository)
      → multi_get_repository owner repo settings ≡ ok v
      → (p : Provider) × (get_of p owner repo settings ≡ ok v)
  unfolding multi_get_repository
  multi_get_repository-eq-ok owner repo settings v h = from (provider_of settings.git_provider) h
    where
      from :
          (o : Option Provider)
          → get_from (λ p. get_of p owner repo settings) (unsupported settings.git_provider) o
            ≡ ok v
          → (p : Provider) × (get_of p owner repo settings ≡ ok v)
      from none e = absurd (ground arith)
      from (some p) e = (p, e)

  -- A repository that is returned for a server is a provider's answer under that server's settings.
  pub get_repository-Answers :
      (Answers : GoString → GoString → GoString → Repository → Type 0)
      → ((p : Provider) (owner repo : GoString) (settings : GitServerSettings) (v : Repository)
          → get_of p owner repo settings ≡ ok v
          → Answers settings.git_server_name owner repo v)
      → (server owner repo : GoString) (s : g.client.Store) (v : Repository) → IsUsableCache k g s
      → (get_repository server owner repo s).0 ≡ ok v
      → Answers server owner repo v
  unfolding get_repository
  get_repository-Answers Answers truthful server owner repo s v h e =
      get_settings-then k g (λ n x. Answers n owner repo x) (multi_get_repository owner repo)
        (λ settings x made.
          let (p, told) = multi_get_repository-eq-ok owner repo settings x made in
          truthful p owner repo settings x told)
        server s v h e

  -- `(*MultiProviderRepositoryService).ListRepositories`
  unfoldable pub multi_list_repositories :
      GoString
      → GitServerSettings
      → ListOptions
      → f.client.Store
      → Result (List Repository) × f.client.Store
  unfolding dispatch
  multi_list_repositories owner settings opts s =
      dispatch f settings.git_provider (unsupported settings.git_provider)
        (repository_key (request settings.git_server_name owner opts))
        (λ p. list_of p owner settings opts) s

  -- `(*RepositoriesService).ListRepositories`
  unfoldable pub list_repositories :
      GoString
      → GoString
      → ListOptions
      → ServiceState g f.client.Store
      → Result (List Repository) × ServiceState g f.client.Store
  unfolding multi_list_repositories serve
  list_repositories server owner opts s =
      serve k g server (λ settings. multi_list_repositories owner settings opts) s

  -- `Answers` stands for any property of an answer that follows from a provider having given it.
  module _ (Answers : RepositoriesRequest → List Repository → Type 0)
      (truthful : (p : Provider) (owner : GoString) (settings : GitServerSettings)
          (opts : ListOptions) (v : List Repository)
        → list_of p owner settings opts ≡ ok v
        → Answers (request settings.git_server_name owner opts) v) where
    -- From a sound state, the state stays sound; and repositories that are returned for a request
    -- whose fields have no `|`, cached or fresh, are a provider's answer to that very request.
    pub list_repositories-IsServed :
        (server owner : GoString) (opts : ListOptions) (s : ServiceState g f.client.Store)
        → IsSound k g f repository_key
            (λ r. All NoBar (repository_fields r))
            Answers
            repository_key-injective
            s
        → IsServed k g f repository_key
            (λ r. All NoBar (repository_fields r))
            Answers
            repository_key-injective
            (request server owner opts)
            (list_repositories server owner opts s)
    unfolding list_repositories
    list_repositories-IsServed server owner opts s h =
        serve-dispatch-IsServed k g f repository_key _ Answers repository_key-injective server _
          (λ n. request n owner opts) (λ settings p. list_of p owner settings opts) s
          (λ settings p v e. truthful p owner settings opts v e) h

    -- From a sound state, repositories returned for a request whose fields have no `|` have every
    -- property that a provider's answer to that very request has.
    pub list_repositories-Answers :
        (server owner : GoString) (opts : ListOptions) (s : ServiceState g f.client.Store)
        (v : List Repository)
        → IsSound k g f repository_key
            (λ r. All NoBar (repository_fields r))
            Answers
            repository_key-injective
            s
        → All NoBar (repository_fields (request server owner opts))
        → (list_repositories server owner opts s).0 ≡ ok v
        → Answers (request server owner opts) v
    list_repositories-Answers server owner opts s v h p e =
        (list_repositories-IsServed server owner opts s h).answer v p e
