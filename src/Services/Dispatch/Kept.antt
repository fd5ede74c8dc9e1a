-- ===== src/Services/Dispatch/Kept.antt =====
-- What a request through `serve` and `dispatch` keeps and returns, for any state of a service.
use gitfusion.Prelude.{◌≡◌, refl, sym, ◌∙◌, none, some, GoString, arith}
use gitfusion.GoError.{GoError, Result, ok, err}
use gitfusion.Models.{GitServerSettings}
use gitfusion.Cache.Client.{FetchingClient, Fetched, hit, miss, refreshed}
use gitfusion.Services.Provider.{Provider, provider_of}
use gitfusion.Services.Krci.{
  Cluster, get_settings, IsUsableCache, get_settings-IsUsable, get_settings-IsUsableCache,
}
use gitfusion.Services.Dispatch.{dispatch, ServiceState, serve, serve_with}

-- For any property of the service's own state that the body keeps, and any of its answers.
module _ {V C : Type 0} (k : Cluster) (g : FetchingClient GitServerSettings) (P : C → Type 0)
    (Q : V → Type 0) where
  pub record IsKept (out : Result V × ServiceState g C) : Type 0 where
    pub settings : IsUsableCache k g out.1.settings
    pub cache : P out.1.cache
    pub answer : (v : V) → out.0 ≡ ok v → Q v

  pub serve-IsKept :
      (server : GoString) (body : GitServerSettings → C → Result V × C) (s : ServiceState g C)
      → ((settings : GitServerSettings)
          → settings.git_server_name ≡ server
          → P (body settings s.cache).1 × ((v : V) → (body settings s.cache).0 ≡ ok v → Q v))
      → IsUsableCache k g s.settings
      → P s.cache
      → IsKept (serve k g server body s)
  unfolding serve
  serve-IsKept server body s each h start =
      from (get_settings k g server s.settings).0
        (λ r e. (get_settings-IsUsable k g server s.settings r h e).named)
    where
      kept : IsUsableCache k g (get_settings k g server s.settings).1
      kept = get_settings-IsUsableCache k g server s.settings h

      from :
          (got : Result GitServerSettings)
          → ((r : GitServerSettings) → got ≡ ok r → r.git_server_name ≡ server)
          → IsKept (
              serve_with k g body got
                (record s { settings = (get_settings k g server s.settings).1 }))
      from (err e) named = record {
        settings = kept;
        cache = start;
        answer = λ v x. absurd (ground arith);
      }
      from (ok r) named =
          let a = each r (named r refl) in record { settings = kept; cache = a.0; answer = a.1 }

-- Where the cache has no entry, a known provider is called, and its result is the result.
pub dispatch-miss :
    {V : Type 0} (f : FetchingClient V) (provider : GoString) (e : GoError) (key : GoString)
    (call : Provider → Result V) (s : f.client.Store) (p : Provider)
    → provider_of provider ≡ some p
    → f.client.get key s ≡ none
    → (dispatch f provider e key call s).0 ≡ call p
unfolding dispatch
dispatch-miss {V} f provider e key call s p known missing =
    rw known (from (f.get_or_fetch_law key (λ (w : Unit {0}). (call p, w)) s tt))
  where
    from :
        {r : Result V} {t : f.client.Store} {x : Unit {0}}
        → Fetched f.client key (λ (w : Unit {0}). (call p, w)) s tt r t x
        → r ≡ call p
    from (hit v found r t x) = absurd (ground (arith, sym missing ∙ found))
    from (miss r t x) = r
    from (refreshed v found r t x) = absurd (ground (arith, sym missing ∙ found))

-- With the settings of the server, the result is the body's.
pub serve-ok :
    {V C : Type 0} (k : Cluster) (g : FetchingClient GitServerSettings) (server : GoString)
    (body : GitServerSettings → C → Result V × C) (s : ServiceState g C)
    (settings : GitServerSettings)
    → (get_settings k g server s.settings).0 ≡ ok settings
    → (serve k g server body s).0 ≡ (body settings s.cache).0
unfolding serve serve_with
serve-ok k g server body s settings got = rw (got, serve_with) refl
