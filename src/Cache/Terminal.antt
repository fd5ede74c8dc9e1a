-- ===== src/Cache/Terminal.antt =====
-- internal/cache/terminal_aware_cache.go: a short-lived tier and a long-lived one, read done first.
use gitfusion.Prelude.{
  ◌≡◌, ◌⊎◌, inl, inr, Bool, true, false, Option, none, some, GoString, if◌then◌else◌, Option-cases,
  arith,
}
use gitfusion.Cache.Client.{CacheClient}
use gitfusion.Cache.Clear.{clear, get-clear}

pub record Tiers {V : Type 0} (c : CacheClient V) : Type 0 where
  pub live : c.Store
  pub done : c.Store

abbrev or_else : {V : Type 0} → Option V → Option V → Option V
or_else (some v) o = some v
or_else none o = o

module _ {V : Type 0} (c : CacheClient V) where
  unfoldable pub terminal_get : GoString → Tiers c → Option V
  terminal_get key t = or_else (c.get key t.done) (c.get key t.live)

  unfoldable pub terminal_set : GoString → V → Bool → Tiers c → Tiers c
  terminal_set key value terminal t =
      if terminal
      then record t { done = c.set key value t.done }
      else record t { live = c.set key value t.live }

  unfoldable pub terminal_invalidate : Tiers c → Tiers c
  terminal_invalidate t = record { live = clear c t.live; done = clear c t.done }

  -- After `Invalidate` no key is found in either tier.
  pub terminal_get-terminal_invalidate :
      (k : GoString) (t : Tiers c) → terminal_get k (terminal_invalidate t) ≡ none
  unfolding terminal_get terminal_invalidate
  terminal_get-terminal_invalidate k t = rw (get-clear c k t.done) (get-clear c k t.live)

  -- While the done tier holds a key, a write to the live tier does not change what `Get` returns.
  pub terminal_get-live_write :
      (k j : GoString) (v w : V) (t : Tiers c)
      → c.get k t.done ≡ some w
      → terminal_get k (terminal_set j v false t) ≡ some w
  unfolding terminal_get terminal_set
  terminal_get-live_write k j v w t h = rw h

  -- What `Get` returns after a `Set` was written by it under that key, or was returned before, or
  -- was hidden in the live tier behind a done entry that has gone.
  pub terminal_get-terminal_set :
      (k j : GoString) (v w : V) (terminal : Bool) (t : Tiers c)
      → terminal_get k (terminal_set j v terminal t) ≡ some w
      → ((j ≡ k) × (v ≡ w)) ⊎ ((c.get k t.done ≡ some w) ⊎ (c.get k t.live ≡ some w))
  unfolding terminal_get terminal_set
  terminal_get-terminal_set k j v w true t h = elim (Option-cases (c.get k (c.set j v t.done))) [
    | inl gone ↦ inr (inr (ground arith))
    | inr (u, found) ↦ ground (arith, c.get_set k j v u t.done found)
  ]
  terminal_get-terminal_set k j v w false t h = elim (Option-cases (c.get k t.done)) [
    | inl gone ↦ ground (arith, c.get_set k j v w t.live (ground arith))
    | inr (u, found) ↦ inr (inl (ground arith))
  ]
