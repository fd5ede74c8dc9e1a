-- ===== src/Cache/Client.antt =====
-- What the program relies on of the cache library (github.com/viccon/sturdyc), as an interface.

use gitfusion.Prelude.{◌≡◌, ◌≢◌, ◌⊎◌, Option, some, List, GoString}
use gitfusion.GoError.{Result, ok, err}
use mathlib.Core.List.{Memᴰ}

-- A client stores values under keys. An entry can be dropped at any time (`sweep`, by the TTL or an
-- eviction), so the laws say only where a value that is found can come from.
pub record CacheClient (V : Type 0) : Type 1 where
  pub Store : Type 0
  pub get : GoString → Store → Option V
  pub set : GoString → V → Store → Store
  pub delete : GoString → Store → Store
  pub scan_keys : Store → List GoString
  pub sweep : Store → Store
  pub get_set :
      (k j : GoString) (v w : V) (s : Store)
      → get k (set j v s) ≡ some w
      → ((j ≡ k) × (v ≡ w)) ⊎ (get k s ≡ some w)
  pub get_delete :
      (k j : GoString) (w : V) (s : Store)
      → get k (delete j s) ≡ some w
      → (j ≢ k) × (get k s ≡ some w)
  pub get_sweep : (k : GoString) (w : V) (s : Store) → get k (sweep s) ≡ some w → get k s ≡ some w
  pub scanned : (k : GoString) (w : V) (s : Store) → get k s ≡ some w → Memᴰ k (scan_keys s)

-- `GetOrFetch`: the fetch function acts on a world of its own, and its value is stored.
abbrev pub stored : {V : Type 0} (c : CacheClient V) → GoString → Result V → c.Store → c.Store
stored c k (ok v) s = c.set k v s
stored c k (err e) s = s

-- The three documented ways in which a call returns: a hit, a miss that fetches, and a hit that
-- also refreshes the entry in the background.
pub data Fetched {V W : Type 0} (c : CacheClient V) (k : GoString) (fetch : W → Result V × W)
    (s : c.Store) (w : W) (r : Result V) (t : c.Store) (x : W) : Type 0 where
  hit : (v : V) → c.get k s ≡ some v → r ≡ ok v → t ≡ s → x ≡ w → Fetched c k fetch s w r t x
  miss :
      r ≡ (fetch w).0 → t ≡ stored c k (fetch w).0 s → x ≡ (fetch w).1 → Fetched c k fetch s w r t x
  refreshed :
      (v : V)
      → c.get k s ≡ some v
      → r ≡ ok v
      → t ≡ stored c k (fetch w).0 s
      → x ≡ (fetch w).1
      → Fetched c k fetch s w r t x

pub record FetchingClient (V : Type 0) : Type 1 where
  pub client : CacheClient V
  pub open client use *
  pub get_or_fetch :
      {W : Type 0} → GoString → (W → Result V × W) → client.Store → W → Result V × client.Store × W
  pub get_or_fetch_law :
      {W : Type 0} (k : GoString) (fetch : W → Result V × W) (s : client.Store) (w : W)
      → Fetched client k fetch s w
          (get_or_fetch k fetch s w).0
          (get_or_fetch k fetch s w).1
          (get_or_fetch k fetch s w).2
