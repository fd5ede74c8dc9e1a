-- ===== src/Server/Handled.antt =====
-- What is stated of each request to internal/api/server.go, and what its proofs share.
use gitfusion.Prelude.{
  ℕ, ◌≡◌, true, some, List, GoString, All, arith, ℤ, itoa, count-itoa, nonempty,
}
use gitfusion.GoError.{Result}
use gitfusion.Models.{GitServerSettings, PipelineVariable}
use gitfusion.Cache.Client.{FetchingClient}
use gitfusion.Services.Keys.{NoBar}
use gitfusion.Services.Krci.{Cluster, IsUsableCache}
use gitfusion.Api.Responses.{Response, success}
use gitfusion.Server.Types.{Caches, App, Reply, Request}
use gitfusion.Server.Claims.{Claims}
use gitfusion.Server.Sound.{IsSoundApp}
use gitfusion.Server.Replies.{texts, IsReply}

pub number_plain : (n : ℤ) → NoBar (itoa n)
number_plain n = count-itoa b'|' n (omega arith)

-- Settings that are sound are usable in any cluster, and those usable in one are sound.
module _ (k : Cluster) (g : FetchingClient GitServerSettings) (s : g.client.Store) where
  pub usable :
      ((server : GoString) (v : GitServerSettings)
        → g.client.get server s ≡ some v
        → (v.git_server_name ≡ server) × (nonempty v.token ≡ true))
      → IsUsableCache k g s
  usable h = record {
    entry =
        λ server v _ found. record { named = (h server v found).0; token = (h server v found).1 };
  }

  pub sound_settings :
      IsUsableCache k g s
      → (server : GoString) (v : GitServerSettings) → g.client.get server s ≡ some v
      → (v.git_server_name ≡ server) × (nonempty v.token ≡ true)
  sound_settings h server v found = let u = h.entry server v tt found in (u.named, u.token)

module _ {Float32 : Type 0} (c : Caches Float32) (a : Claims Float32)
    (unmarshal : GoString → Result (List PipelineVariable)) where
  -- The caches are left sound, and a success to a request without `|` is a sound reply.
  pub record IsHandled (r : Request) (out : Response (Reply Float32 r) × App c) : Type 0 where
    pub state : IsSoundApp c a out.1
    pub reply :
        (n : ℕ) (v : Reply Float32 r)
        → All NoBar (texts r)
        → out.0 ≡ success n v
        → IsReply a unmarshal r v
