-- ===== src/Services/Organizations.antt =====
-- internal/services/organizations: the organizations of the server's user, cached by the server's
-- name, and the warm-up of that cache.
use gitfusion.Prelude.{◌≡◌, List, [], ◌∷◌, GoString}
use gitfusion.GoError.{Result, ok, err}
use gitfusion.Models.{GitServerSettings, Organization}
use gitfusion.Cache.Client.{FetchingClient}
use gitfusion.Services.Provider.{Provider, unsupported}
use gitfusion.Services.Krci.{Cluster, get_settings_list}
use gitfusion.Services.Dispatch.{
  dispatch, ServiceState, serve, IsSound, IsServed, serve-dispatch-IsServed, dispatch-IsAnswer,
}
use gitfusion.Services.Cached.{IsFaithful}

-- The provider implementations, the cluster and the two caches are parameters.
module _ (list_of : Provider → GitServerSettings → Result (List Organization)) (k : Cluster)
    (g : FetchingClient GitServerSettings) (f : FetchingClient (List Organization)) where
  -- `(*MultiProviderOrganizationsService).ListUserOrganizations`
  unfoldable pub multi_list_organizations :
      GitServerSettings → f.client.Store → Result (List Organization) × f.client.Store
  unfolding dispatch
  multi_list_organizations settings s =
      dispatch f settings.git_provider (unsupported settings.git_provider) settings.git_server_name
        (λ p. list_of p settings) s

  -- `(*OrganizationsService).ListUserOrganizations`
  unfoldable pub list_organizations :
      GoString
      → ServiceState g f.client.Store
      → Result (List Organization) × ServiceState g f.client.Store
  unfolding multi_list_organizations serve
  list_organizations server s = serve k g server multi_list_organizations s

  -- The warm-up in the order in which the goroutines happen to run; its errors are only logged.
  warm_each : List GitServerSettings → f.client.Store → f.client.Store
  warm_each [] s = s
  warm_each (settings ∷ rest) s = warm_each rest (multi_list_organizations settings s).1

  warm_from : Result (List GitServerSettings) → f.client.Store → f.client.Store
  warm_from (err e) s = s
  warm_from (ok settings) s = warm_each settings s

  unfoldable pub warm_up : f.client.Store → f.client.Store
  unfolding warm_from warm_each multi_list_organizations
  warm_up s = warm_from (get_settings_list k g) s

  -- `Answers` stands for any property of an answer that follows from a provider having given it.
  module _ (Answers : GoString → List Organization → Type 0)
      (truthful : (p : Provider) (settings : GitServerSettings) (v : List Organization)
        → list_of p settings ≡ ok v
        → Answers settings.git_server_name v) where
    abbrev pub IsTrueCache : f.client.Store → Type 0
    IsTrueCache = IsFaithful f (λ n. n) (λ n. Unit {0}) Answers (λ r q p e. e)

    -- From a sound state, the state stays sound, and the organizations that are returned for a
    -- server, cached or fresh, are a provider's answer for that server.
    pub list_organizations-IsServed :
        (server : GoString) (s : ServiceState g f.client.Store)
        → IsSound k g f (λ n. n) (λ n. Unit {0}) Answers (λ r q p e. e) s
        → IsServed k g f
            (λ n. n)
            (λ n. Unit {0})
            Answers
            (λ r q p e. e)
            server
            (list_organizations server s)
    unfolding list_organizations
    list_organizations-IsServed server s h =
        serve-dispatch-IsServed k g f (λ n. n) _ Answers (λ r q p e. e) server _ (λ n. n)
          (λ settings p. list_of p settings) s (λ settings p v e. truthful p settings v e) h

    warm_each-IsTrueCache :
        (l : List GitServerSettings) (s : f.client.Store)
        → IsTrueCache s
        → IsTrueCache (warm_each l s)
    unfolding warm_each multi_list_organizations
    warm_each-IsTrueCache [] s h = h
    warm_each-IsTrueCache (settings ∷ rest) s h =
        warm_each-IsTrueCache rest _
          (dispatch-IsAnswer k g f (λ n. n) (λ n. Unit {0}) Answers (λ r q p e. e)
            settings.git_provider _ settings.git_server_name (λ p. list_of p settings) s
            (λ p v e. truthful p settings v e) h).cache

    -- If every entry of the cache is an answer for the server of its key, that is so after the warm-up
    -- as well, with whatever failures of the cluster or the providers.
    pub warm_up-IsTrueCache : (s : f.client.Store) → IsTrueCache s → IsTrueCache (warm_up s)
    unfolding warm_up
    warm_up-IsTrueCache s h = from (get_settings_list k g)
      where
        from : (r : Result (List GitServerSettings)) → IsTrueCache (warm_from r s)
        from (err e) = h
        from (ok l) = warm_each-IsTrueCache l s h

    -- From a sound state, organizations returned for a server have every property that a provider's
    -- answer for that server has.
    pub list_organizations-Answers :
        (server : GoString) (s : ServiceState g f.client.Store) (v : List Organization)
        → IsSound k g f (λ n. n) (λ n. Unit {0}) Answers (λ r q p e. e) s
        → (list_organizations server s).0 ≡ ok v
        → Answers (server) v
    list_organizations-Answers server s v h e =
        (list_organizations-IsServed server s h).answer v tt e
