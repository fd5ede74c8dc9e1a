-- ===== src/Cache/Clear.antt =====
-- The loop by which internal/cache empties a client: scan the keys, delete each.
use mathlib.Core.List.Memᴰ
use mathlib.Core.List.{Memᴰ}
use gitfusion.Prelude.{◌≡◌, sym, none, some, List, [], ◌∷◌, GoString, Option-cases, inl, inr}
use gitfusion.Cache.Client.{CacheClient}

module _ {V : Type 0} (c : CacheClient V) where
  open c use {Store, get, delete, scan_keys, get_delete, scanned}

  -- `for _, key := range keys { cache.Delete(key) }`
  unfoldable pub delete_all : List GoString → Store → Store
  delete_all [] s = s
  delete_all (key ∷ keys) s = delete_all keys (delete key s)

  unfoldable pub clear : Store → Store
  unfolding delete_all
  clear s = delete_all (scan_keys s) s

  get-delete_all :
      (keys : List GoString) (k : GoString) (w : V) (s : Store)
      → get k (delete_all keys s) ≡ some w
      → (¬ Memᴰ k keys) × (get k s ≡ some w)
  unfolding delete_all
  get-delete_all [] k w s h = (Memᴰ.not-nil, h)
  get-delete_all (key ∷ keys) k w s h =
      let (absent, kept) = get-delete_all keys k w (delete key s) h in
      let (other, found) = get_delete k key w s kept in
      (λ m. elim (Memᴰ.cases_cons m) [ inl e ↦ other (sym e) | inr later ↦ absent later ], found)

  -- Nothing is found in a cleared cache.
  pub get-clear : (k : GoString) (s : Store) → get k (clear s) ≡ none
  unfolding clear
  get-clear k s = elim (Option-cases (get k (clear s))) [
    | inl gone ↦ gone
    | inr (w, found) ↦
        let (absent, present) = get-delete_all (scan_keys s) k w s found in
        absurd (absent (scanned k w s present))
  ]
