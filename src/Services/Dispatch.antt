-- ===== src/Services/Dispatch.antt =====
-- What the services of internal/services share: `settings, err := GetGitProviderSettings(…)`, the
-- lookup of the provider by name, and `cache.GetOrFetch` with the provider's call as fetch function.
pub mod Kept
use mathlib.Core.Path.{subst}
use gitfusion.Prelude.{◌≡◌, refl, sym, ◌∙◌, Option, none, some, GoString, arith}
use gitfusion.GoError.{GoError, Result, ok, err}
use gitfusion.Models.{GitServerSettings}
use gitfusion.Cache.Client.{FetchingClient, Fetched, hit, miss, refreshed}
use gitfusion.Services.Cached.{IsFaithful, get_or_fetch-IsFaithful, get_or_fetch-Answers}
use gitfusion.Services.Provider.{Provider, provider_of}
use gitfusion.Services.Krci.{
  Cluster, get_settings, IsUsableCache, get_settings-IsUsable, get_settings-IsUsableCache,
}

module _ {V : Type 0} (f : FetchingClient V) where
  fetch_from :
      Option Provider
      → GoError
      → GoString
      → (Provider → Result V)
      → f.client.Store
      → Result V × f.client.Store
  fetch_from none e key call s = (err e, s)
  fetch_from (some p) e key call s =
      let out = f.get_or_fetch key (λ (w : Unit {0}). (call p, w)) s tt in (out.0, out.1)

  -- An unknown provider name is the error given; a known one is called through the cache.
  unfoldable pub dispatch :
      GoString
      → GoError
      → GoString
      → (Provider → Result V)
      → f.client.Store
      → Result V × f.client.Store
  unfolding fetch_from
  dispatch provider e key call s = fetch_from (provider_of provider) e key call s

-- The cache of settings, which all services share, and the service's own cache or caches.
pub record ServiceState (g : FetchingClient GitServerSettings) (C : Type 0) : Type 0 where
  pub settings : g.client.Store
  pub cache : C

module _ {V C : Type 0} (k : Cluster) (g : FetchingClient GitServerSettings) where
  serve_with :
      (GitServerSettings → C → Result V × C)
      → Result GitServerSettings
      → ServiceState g C
      → Result V × ServiceState g C
  serve_with body (err e) s = (err e, s)
  serve_with body (ok settings) s =
      let out = body settings s.cache in (out.0, record s { cache = out.1 })

  -- The settings of the server first, and an error of theirs is the answer.
  unfoldable pub serve :
      GoString
      → (GitServerSettings → C → Result V × C)
      → ServiceState g C
      → Result V × ServiceState g C
  unfolding serve_with
  serve server body s =
      let got = get_settings k g server s.settings in
      serve_with body got.0 (record s { settings = got.1 })

module _ {V Req : Type 0} (k : Cluster) (g : FetchingClient GitServerSettings)
    (f : FetchingClient V) (key : Req → GoString) (IsPlain : Req → Type 0)
    (Answers : Req → V → Type 0) (separates : (r q : Req) → IsPlain r → key r ≡ key q → r ≡ q) where
  abbrev IsTrue : f.client.Store → Type 0
  IsTrue = IsFaithful f key IsPlain Answers separates

  -- The cache is left faithful, and a plain request is answered.
  pub record IsAnswer (q : Req) (out : Result V × f.client.Store) : Type 0 where
    pub cache : IsFaithful f key IsPlain Answers separates out.1
    pub answer : (v : V) → IsPlain q → out.0 ≡ ok v → Answers q v

  pub dispatch-IsAnswer :
      (provider : GoString) (e : GoError) (q : Req) (call : Provider → Result V)
      (s : f.client.Store)
      → ((p : Provider) (v : V) → call p ≡ ok v → Answers q v)
      → IsFaithful f key IsPlain Answers separates s
      → IsAnswer q (dispatch f provider e (key q) call s)
  unfolding dispatch
  dispatch-IsAnswer provider e q call s truth h = from (provider_of provider)
    where
      from : (o : Option Provider) → IsAnswer q (fetch_from f o e (key q) call s)
      from none = record { cache = h; answer = λ v p x. absurd (ground arith) }
      from (some p) = record {
        cache =
            get_or_fetch-IsFaithful f key IsPlain Answers separates q
              (λ (w : Unit {0}). (call p, w)) s tt (truth p) h;
        answer =
            get_or_fetch-Answers f key IsPlain Answers separates q (λ (w : Unit {0}). (call p, w)) s
              tt (truth p) h;
      }

  pub record IsSound (s : ServiceState g f.client.Store) : Type 0 where
    pub settings : IsUsableCache k g s.settings
    pub cache : IsFaithful f key IsPlain Answers separates s.cache

  pub record IsServed (q : Req) (out : Result V × ServiceState g f.client.Store) : Type 0 where
    pub state : IsSound out.1
    pub answer : (v : V) → IsPlain q → out.0 ≡ ok v → Answers q v

  pub serve-IsServed :
      (server : GoString) (q : Req)
      (body : GitServerSettings → f.client.Store → Result V × f.client.Store)
      (s : ServiceState g f.client.Store)
      → ((settings : GitServerSettings) (c : f.client.Store)
          → settings.git_server_name ≡ server
          → IsFaithful f key IsPlain Answers separates c
          → IsAnswer q (body settings c))
      → IsSound s
      → IsServed q (serve k g server body s)
  unfolding serve
  serve-IsServed server q body s each h =
      from (get_settings k g server s.settings).0
        (λ r e. (get_settings-IsUsable k g server s.settings r h.settings e).named)
    where
      kept : IsUsableCache k g (get_settings k g server s.settings).1
      kept = get_settings-IsUsableCache k g server s.settings h.settings

      from :
          (got : Result GitServerSettings)
          → ((r : GitServerSettings) → got ≡ ok r → r.git_server_name ≡ server)
          → IsServed q (
              serve_with k g body got
                (record s { settings = (get_settings k g server s.settings).1 }))
      from (err e) named = record {
        state = record { settings = kept; cache = h.cache };
        answer = λ v p x. absurd (ground arith);
      }
      from (ok r) named =
          let a = each r s.cache (named r refl) h.cache in
          record { state = record { settings = kept; cache = a.cache }; answer = a.answer }

  -- Both together: the body of every list service.
  pub serve-dispatch-IsServed :
      (server : GoString) (e : GitServerSettings → GoError) (q : GoString → Req)
      (call : GitServerSettings → Provider → Result V) (s : ServiceState g f.client.Store)
      → ((settings : GitServerSettings) (p : Provider) (v : V)
          → call settings p ≡ ok v
          → Answers (q settings.git_server_name) v)
      → IsSound s
      → IsServed (q server) (
          serve k g server
            (λ settings.
              dispatch f settings.git_provider
                (e settings)
                (key (q settings.git_server_name))
                (call settings))
            s)
  serve-dispatch-IsServed server e q call s truthful h =
      serve-IsServed server (q server) _ s
        (λ settings c named faithful.
          subst
            (λ n. IsAnswer (q n) (
              dispatch f settings.git_provider (e settings) (key (q settings.git_server_name))
                (call settings) c))
            named
            (dispatch-IsAnswer settings.git_provider (e settings) (q settings.git_server_name)
              (call settings) c (truthful settings) faithful))
        h
