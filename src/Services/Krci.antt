-- ===== src/Services/Krci.antt =====
-- internal/services/krci/gitserver.go: the settings of a Git server, read from the cluster (the
-- GitServer object and its secret) and cached by the server's name.
use mathlib.Core.Path.{subst}
use gitfusion.Prelude.{
  ◌≡◌, true, Option, List, [], ◌∷◌, ◌++◌, GoString, str, nonempty, if◌then◌else◌, arith,
}
use gitfusion.GoError.{Result, ok, err, message, wrapped, ◌>>=◌, >>=-eq-ok}
use gitfusion.Models.{GitServerSettings}
use gitfusion.Common.{value_or_empty}
use gitfusion.Cache.Client.{FetchingClient}
use gitfusion.Services.Cached.{IsFaithful, get_or_fetch-IsFaithful, get_or_fetch-Answers}

-- What the service relies on of the cluster and of the codebase operator, in one namespace. A
-- secret without the token field has no token.
pub record Cluster : Type 1 where
  pub GitServer : Type 0
  pub name : GitServer → GoString
  pub git_provider : GitServer → GoString
  pub secret_name : GitServer → GoString
  pub api_url : GitServer → GoString
  pub get_git_server : GoString → Result GitServer
  pub list_git_servers : Result (List GitServer)
  pub get_secret_token : GoString → Result (Option GoString)
  pub get_named : (n : GoString) (g : GitServer) → get_git_server n ≡ ok g → name g ≡ n

module _ (k : Cluster) (f : FetchingClient GitServerSettings) where
  open k use {
    GitServer, name, git_provider, secret_name, api_url, get_git_server, list_git_servers,
    get_secret_token, get_named,
  }

  make_settings : GitServer → GoString → Result GitServerSettings
  make_settings g token =
      if nonempty token
      then ok (record {
        url = api_url g;
        token = token;
        git_provider = git_provider g;
        git_server_name = name g;
      })
      else err (message (str "git provider token is empty"))

  unfoldable pub settings_for_server : GitServer → Result GitServerSettings
  unfolding make_settings
  settings_for_server g = do
    token ← get_secret_token (secret_name g)
    make_settings g (value_or_empty token)

  unfoldable pub fetch_settings : GoString → Result GitServerSettings
  unfolding settings_for_server
  fetch_settings server = do g ← get_git_server server; settings_for_server g

  unfoldable pub get_settings :
      GoString → f.client.Store → Result GitServerSettings × f.client.Store
  unfolding fetch_settings
  get_settings server s =
      let out = f.get_or_fetch server (λ (w : Unit {0}). (fetch_settings server, w)) s tt in
      (out.0, out.1)

  -- The loop of `GetGitProviderSettingsList`; the first failure ends it.
  settings_loop : List GitServer → Result (List GitServerSettings)
  settings_loop [] = ok []
  settings_loop (g ∷ gs) = elim (settings_for_server g) [
    | err e ↦ err (wrapped (str "failed to get settings for GitServer " ++ name g ++ str ": ") e)
    | ok s ↦ settings_loop gs >>= λ rest. ok (s ∷ rest)
  ]

  unfoldable pub get_settings_list : Result (List GitServerSettings)
  unfolding settings_loop
  get_settings_list = elim list_git_servers [
    | err e ↦ err (wrapped (str "failed to list GitServers: ") e)
    | ok gs ↦ settings_loop gs
  ]

  -- Usable settings: those of the named server, with a token that is not empty.
  pub record IsUsable (server : GoString) (s : GitServerSettings) : Type 0 where
    pub named : s.git_server_name ≡ server
    pub token : nonempty s.token ≡ true

  make_settings-IsUsable :
      (g : GitServer) (token : GoString) (s : GitServerSettings)
      → make_settings g token ≡ ok s
      → IsUsable (name g) s
  unfolding make_settings
  make_settings-IsUsable g token s h = ground arith

  settings_for_server-IsUsable :
      (g : GitServer) (s : GitServerSettings) → settings_for_server g ≡ ok s → IsUsable (name g) s
  unfolding settings_for_server
  settings_for_server-IsUsable g s h =
      let (token, read, made) = >>=-eq-ok (get_secret_token (secret_name g)) _ h in
      make_settings-IsUsable g (value_or_empty token) s made

  fetch_settings-IsUsable :
      (server : GoString) (s : GitServerSettings) → fetch_settings server ≡ ok s → IsUsable server s
  unfolding fetch_settings
  fetch_settings-IsUsable server s h =
      let (g, got, made) = >>=-eq-ok (get_git_server server) _ h in
      subst (λ n. IsUsable n s) (get_named server g got) (settings_for_server-IsUsable g s made)

  -- The cache of settings holds usable settings only, each under its server's name.
  abbrev pub IsUsableCache : f.client.Store → Type 0
  IsUsableCache = IsFaithful f (λ server. server) (λ server. Unit {0}) IsUsable (λ r q p e. e)

  pub get_settings-IsUsableCache :
      (server : GoString) (s : f.client.Store)
      → IsUsableCache s
      → IsUsableCache (get_settings server s).1
  unfolding get_settings
  get_settings-IsUsableCache server s h =
      get_or_fetch-IsFaithful f (λ n. n) (λ n. Unit {0}) IsUsable (λ r q p e. e) server _ s tt
        (fetch_settings-IsUsable server) h

  -- If the cache has usable settings only, those that the service returns for a server name, cached
  -- or fresh, are that server's and have a token that is not empty.
  pub get_settings-IsUsable :
      (server : GoString) (s : f.client.Store) (r : GitServerSettings)
      → IsUsableCache s
      → (get_settings server s).0 ≡ ok r
      → IsUsable server r
  unfolding get_settings
  get_settings-IsUsable server s r h e =
      get_or_fetch-Answers f (λ n. n) (λ n. Unit {0}) IsUsable (λ r q p e. e) server _ s tt
        (fetch_settings-IsUsable server) h r tt e

  -- What is true of any result under usable settings is true of the result for the server asked for.
  pub get_settings-then :
      {V : Type 0} (Q : GoString → V → Type 0) (use_settings : GitServerSettings → Result V)
      → ((settings : GitServerSettings) (v : V)
          → use_settings settings ≡ ok v
          → Q settings.git_server_name v)
      → (server : GoString) (s : f.client.Store) (v : V) → IsUsableCache s
      → ((get_settings server s).0 >>= use_settings) ≡ ok v
      → Q server v
  get_settings-then Q use_settings each server s v h e =
      let (settings, got, used) = >>=-eq-ok (get_settings server s).0 use_settings e in
      subst (λ n. Q n v) (get_settings-IsUsable server s settings h got).named
        (each settings v used)
