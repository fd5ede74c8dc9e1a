-- ===== src/Services/Pipelines/Lists.antt =====
-- Listing pipelines through the cache, and the keys of internal/services/pipelines.
use gitfusion.Prelude.{◌≡◌, refl, [], ◌∷◌, GoString, All, itoa, itoa_injective}
use gitfusion.Services.Keys.{NoBar, join_bar-injective}
use gitfusion.Services.PipelineTypes.{
  PipelinesRequest, pipelines_fields, pipelines_key, NumberRequest, number_fields, number_key,
  terminal_job_key,
}

pub pipelines_key-injective :
    (r q : PipelinesRequest)
    → All NoBar (pipelines_fields r)
    → pipelines_key r ≡ pipelines_key q
    → r ≡ q
unfolding pipelines_key
pipelines_key-injective r q p e =
    let same =
      join_bar-injective r.git_server q.git_server
        (r.project ∷ r.ref ∷ r.status ∷ itoa r.page ∷ itoa r.per_page ∷ [])
        (q.project ∷ q.ref ∷ q.status ∷ itoa q.page ∷ itoa q.per_page ∷ []) refl p e in
    cc
      (same, itoa_injective r.page q.page (cc same), itoa_injective r.per_page q.per_page (cc same))

pub number_key-injective :
    (r q : NumberRequest) → All NoBar (number_fields r) → number_key r ≡ number_key q → r ≡ q
unfolding number_key
number_key-injective r q p e =
    let same =
      join_bar-injective r.git_server q.git_server (r.project ∷ itoa r.number ∷ [])
        (q.project ∷ itoa q.number ∷ []) refl p e in
    cc (same, itoa_injective r.number q.number (cc same))

pub terminal_job_key-injective :
    (server id server' id' : GoString)
    → All NoBar (server ∷ id ∷ [])
    → terminal_job_key server id ≡ terminal_job_key server' id'
    → (server ≡ server') × (id ≡ id')
unfolding terminal_job_key
terminal_job_key-injective server id server' id' p e =
    let same = join_bar-injective server server' (id ∷ []) (id' ∷ []) refl p e in (cc same, cc same)
