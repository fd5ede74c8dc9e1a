-- ===== src/Server/Told.antt =====
-- The answers that the providers gave in the worlds of a run of internal/api/server.go: what the program
-- promises of its replies.
use mathlib.Core.List.{Memᴰ}
use gitfusion.Prelude.{◌≡◌, refl, true, ◌⊎◌, inl, inr, List, [], ◌∷◌, GoString, ℤ, All}
use gitfusion.GoError.{ok}
use gitfusion.Common.{value_or_empty}
use gitfusion.Models.{GitServerSettings, PipelineJob, PipelineListOptions, ListOptions}
use gitfusion.Services.Provider.{Provider}
use gitfusion.Services.PipelineTypes.{PipelineClients, is_terminal_job_status}
use gitfusion.Server.Types.{World}
use gitfusion.Server.Claims.{Claims, IsTruthful}

-- Settings under which a provider was called for a server.
abbrev pub SettingsOf : GoString → (GitServerSettings → Type 0) → Type 0
SettingsOf server P =
    (settings : GitServerSettings) × (settings.git_server_name ≡ server) × P settings

each_member : {A : Type 0} (Q : A → Type 0) (l : List A) → ((x : A) → Memᴰ x l → Q x) → All Q l
each_member Q [] each = tt
each_member Q (x ∷ l) each =
    (each x (Memᴰ.head refl), each_member Q l (λ y m. each y (Memᴰ.tail m)))

module _ {Float32 : Type 0} where
  -- In one of the worlds.
  abbrev pub AnyWorld : (World Float32 → Type 0) → List (World Float32) → Type 0
  AnyWorld P [] = ⊥
  AnyWorld P (w ∷ ws) = P w ⊎ AnyWorld P ws

  -- Some provider's call for the request, in one of the worlds, returned the value.
  abbrev pub told : List (World Float32) → Claims Float32
  told ws = record {
    repository = λ server owner repo v.
        AnyWorld
          (λ w.
            (p : Provider) × SettingsOf server
              (λ settings. w.repository_of p owner repo settings ≡ ok v))
          ws;
    repositories = λ r v.
        AnyWorld
          (λ w.
            (p : Provider) × (opts : ListOptions) × (value_or_empty opts.name ≡ r.name)
            × SettingsOf r.git_server
                (λ settings. w.repositories_of p r.owner settings opts ≡ ok v))
          ws;
    organizations = λ server v.
        AnyWorld
          (λ w.
            (p : Provider) × SettingsOf server (λ settings. w.organizations_of p settings ≡ ok v))
          ws;
    branches = λ r v.
        AnyWorld
          (λ w.
            (p : Provider) × (opts : ListOptions) × (value_or_empty opts.name ≡ r.name)
            × SettingsOf r.git_server
                (λ settings. w.branches_of p r.owner r.repo settings opts ≡ ok v))
          ws;
    pull_requests = λ r v.
        AnyWorld
          (λ w.
            (p : Provider) × SettingsOf r.git_server (λ settings.
              w.pull_requests_of p r.owner r.repo settings
                (record { state = r.state; page = r.page; per_page = r.per_page })
              ≡ ok v))
          ws;
    triggered = λ server project ref variables v.
        AnyWorld
          (λ w.
            (p : Provider) × SettingsOf server
              (λ settings. w.pipelines.trigger_of p project ref variables settings ≡ ok v))
          ws;
    pipelines = λ r v.
        AnyWorld
          (λ w.
            (p : Provider) × (opts : PipelineListOptions) × (value_or_empty opts.ref ≡ r.ref)
            × (value_or_empty opts.status ≡ r.status)
            × (opts.page ≡ r.page)
            × (opts.per_page ≡ r.per_page)
            × SettingsOf r.git_server
                (λ settings. w.pipelines.list_of p r.project settings opts ≡ ok v))
          ws;
    jobs = λ r v.
        AnyWorld
          (λ w.
            (p : Provider) × SettingsOf r.git_server
              (λ settings. w.pipelines.jobs_of p r.project r.number settings ≡ ok v))
          ws;
    traces = λ r t.
        AnyWorld
          (λ w.
            (p : Provider) × SettingsOf r.git_server (λ settings.
              w.pipelines.trace_of p r.project r.number settings ≡ ok (t.content, t.truncated)))
          ws;
    finished = λ server id.
        AnyWorld
          (λ w.
            (p : Provider) × (project : GoString) × (n : ℤ) × (l : List (PipelineJob Float32))
            × (j : PipelineJob Float32) × Memᴰ j l
            × (j.id ≡ id)
            × (is_terminal_job_status j.status ≡ true)
            × SettingsOf server (λ settings. w.pipelines.jobs_of p project n settings ≡ ok l))
          ws;
  }

  -- What the providers return in one of the worlds is among what they return in all.
  truthful_in :
      (c : PipelineClients Float32) (ws : List (World Float32)) (w : World Float32)
      → ((P : World Float32 → Type 0) → P w → AnyWorld P ws)
      → IsTruthful c (told ws) w
  truthful_in c ws w among = record {
    repository = λ p owner repo settings v e. among _ (p, (settings, refl, e));
    repositories = λ p owner settings opts v e. among _ (p, opts, refl, (settings, refl, e));
    organizations = λ p settings v e. among _ (p, (settings, refl, e));
    branches = λ p owner repo settings opts v e. among _ (p, opts, refl, (settings, refl, e));
    pull_requests = λ p owner repo settings opts v e. among _ (p, (settings, refl, e));
    triggered = λ p project ref variables settings v e. among _ (p, (settings, refl, e));
    pipelines = λ p project settings opts v e.
        among _ (p, opts, refl, refl, refl, refl, (settings, refl, e));
    jobs = λ p project id settings v e. among _ (p, (settings, refl, e));
    on_jobs = record {
      traces = λ p project id settings content truncated e. among _ (p, (settings, refl, e));
      jobs = λ p project id settings l e.
          each_member _ l (λ j m terminal.
            among _ (p, project, id, l, j, m, refl, terminal, (settings, refl, e)));
    };
  }

  pub All-truthful :
      (c : PipelineClients Float32) (ws vs : List (World Float32))
      → ((P : World Float32 → Type 0) → AnyWorld P vs → AnyWorld P ws)
      → All (IsTruthful c (told ws)) vs
  All-truthful c ws [] among = tt
  All-truthful c ws (v ∷ vs) among = (
    truthful_in c ws v (λ P here. among P (inl here)),
    All-truthful c ws vs (λ P there. among P (inr there)),
  )
