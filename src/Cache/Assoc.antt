-- ===== src/Cache/Assoc.antt =====
-- A client that meets the interface: an association list that drops nothing.
use mathlib.Core.List.{Memᴰ}
use gitfusion.Prelude.{
  ◌≡◌, ◌≢◌, refl, sym, ◌⊎◌, inl, inr, Option, none, some, List, [], ◌∷◌, GoString, eq_str,
  eq_str_iff, if◌then◌else◌, arith, Bool-cases, Option-cases,
}
use gitfusion.GoError.{Result, ok}
use gitfusion.Cache.Client.{CacheClient, FetchingClient, Fetched, hit, miss, stored}

module _ {V : Type 0} where
  unfoldable pub assoc_get : GoString → List (GoString × V) → Option V
  assoc_get k [] = none
  assoc_get k ((j, v) ∷ s) = if eq_str j k then some v else assoc_get k s

  unfoldable pub assoc_delete : GoString → List (GoString × V) → List (GoString × V)
  assoc_delete k [] = []
  assoc_delete k ((j, v) ∷ s) =
      let rest = assoc_delete k s in if eq_str j k then rest else (j, v) ∷ rest

  unfoldable pub assoc_keys : List (GoString × V) → List GoString
  assoc_keys [] = []
  assoc_keys ((j, v) ∷ s) = j ∷ assoc_keys s

  pub assoc-get_set :
      (k j : GoString) (v w : V) (s : List (GoString × V))
      → assoc_get k ((j, v) ∷ s) ≡ some w
      → ((j ≡ k) × (v ≡ w)) ⊎ (assoc_get k s ≡ some w)
  unfolding assoc_get
  assoc-get_set k j v w s h = ground (arith, eq_str_iff j k)

  pub assoc-get_delete :
      (k j : GoString) (w : V) (s : List (GoString × V))
      → assoc_get k (assoc_delete j s) ≡ some w
      → (j ≢ k) × (assoc_get k s ≡ some w)
  unfolding assoc_get assoc_delete
  assoc-get_delete k j w [] h = ground arith
  assoc-get_delete k j w ((i, v) ∷ s) h =
      ground (arith, assoc-get_delete k j w s, eq_str_iff i j, eq_str_iff i k, eq_str_iff j k)

  pub assoc_scanned :
      (k : GoString) (w : V) (s : List (GoString × V))
      → assoc_get k s ≡ some w
      → Memᴰ k (assoc_keys s)
  unfolding assoc_get assoc_keys
  assoc_scanned k w [] h = absurd (ground arith)
  assoc_scanned k w ((i, v) ∷ s) h = elim (Bool-cases (eq_str i k)) [
    | inl e ↦ Memᴰ.head (sym ((eq_str_iff i k).0 e))
    | inr e ↦ Memᴰ.tail (assoc_scanned k w s (ground arith))
  ]

abbrev pub assoc_client : (V : Type 0) → CacheClient V
assoc_client V = record {
  Store = List (GoString × V);
  get = assoc_get;
  set = λ k v s. (k, v) ∷ s;
  delete = assoc_delete;
  scan_keys = assoc_keys;
  sweep = λ s. s;
  get_set = assoc-get_set;
  get_delete = assoc-get_delete;
  get_sweep = λ k w s h. h;
  scanned = assoc_scanned;
}

abbrev pub assoc_serve :
    {V W : Type 0}
    → GoString
    → (W → Result V × W)
    → List (GoString × V)
    → W
    → Option V
    → Result V × List (GoString × V) × W
assoc_serve k fetch s w (some v) = (ok v, s, w)
assoc_serve {V} k fetch s w none =
    ((fetch w).0, stored (assoc_client V) k (fetch w).0 s, (fetch w).1)

unfoldable pub assoc_fetch :
    {V W : Type 0}
    → GoString
    → (W → Result V × W)
    → List (GoString × V)
    → W
    → Result V × List (GoString × V) × W
assoc_fetch k fetch s w = assoc_serve k fetch s w (assoc_get k s)

pub assoc_fetch_law :
    {V W : Type 0} (k : GoString) (fetch : W → Result V × W) (s : List (GoString × V)) (w : W)
    → Fetched
        (assoc_client V)
        k
        fetch
        s
        w
        (assoc_fetch k fetch s w).0
        (assoc_fetch k fetch s w).1
        (assoc_fetch k fetch s w).2
unfolding assoc_fetch
assoc_fetch_law k fetch s w = elim (Option-cases (assoc_get k s)) [
  | inl e ↦ rw e (miss refl refl refl)
  | inr (v, e) ↦ hit v e (rw e) (rw e) (rw e)
]

abbrev pub assoc_fetching : (V : Type 0) → FetchingClient V
assoc_fetching V = record {
  client = assoc_client V;
  get_or_fetch = assoc_fetch;
  get_or_fetch_law = assoc_fetch_law;
}
