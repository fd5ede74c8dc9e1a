-- ===== src/Services/Cached.antt =====
-- Lookups through `GetOrFetch`, for any request type: what the cache returns for a request is an
-- answer to that request, as long as the requests of the same key are the same.
use mathlib.Core.Path.{subst, subst₂}
use gitfusion.Prelude.{◌≡◌, refl, sym, ◌∙◌, some, GoString, inl, inr, arith}
use gitfusion.GoError.{Result, ok, err}
use gitfusion.Cache.Client.{FetchingClient, Fetched, hit, miss, refreshed, stored}

module _ {V Req : Type 0} (f : FetchingClient V) (key : Req → GoString) (IsPlain : Req → Type 0)
    (Answers : Req → V → Type 0) (separates : (r q : Req) → IsPlain r → key r ≡ key q → r ≡ q) where
  open f use {Store, get, get_or_fetch, get_or_fetch_law, get_set, set}

  -- Every entry under the key of a plain request answers that request.
  pub record IsFaithful (s : Store) : Type 0 where
    pub entry : (r : Req) (v : V) → IsPlain r → get (key r) s ≡ some v → Answers r v

  set-IsFaithful :
      (q : Req) (v : V) (s : Store) → Answers q v → IsFaithful s → IsFaithful (set (key q) v s)
  set-IsFaithful q v s a h = record {
    entry = λ r w p found. elim (get_set (key r) (key q) v w s found) [
      | inl (same, e) ↦ subst₂ Answers (sym (separates r q p (sym same))) e a
      | inr old ↦ h.entry r w p old
    ];
  }

  stored-IsFaithful :
      (q : Req) (r : Result V) (s : Store)
      → ((v : V) → r ≡ ok v → Answers q v)
      → IsFaithful s
      → IsFaithful (stored f.client (key q) r s)
  stored-IsFaithful q (ok v) s a h = set-IsFaithful q v s (a v refl) h
  stored-IsFaithful q (err e) s a h = h

  module _ {W : Type 0} (q : Req) (fetch : W → Result V × W) (s : Store) (w : W)
      (answers : (v : V) → (fetch w).0 ≡ ok v → Answers q v) (faithful : IsFaithful s) where
    -- What the three ways of serving a request have in common.
    served :
        (r : Result V) (t : Store) (x : W)
        → Fetched f.client (key q) fetch s w r t x
        → IsFaithful t × ((v : V) → IsPlain q → r ≡ ok v → Answers q v)
    served r t x (hit u found e kept _) = (
      subst IsFaithful (sym kept) faithful,
      λ v p e'. faithful.entry q v p (found ∙ ground (arith, e, e')),
    )
    served r t x (miss e kept _) = (
      subst IsFaithful (sym kept) (stored-IsFaithful q (fetch w).0 s answers faithful),
      λ v p e'. answers v (sym e ∙ e'),
    )
    served r t x (refreshed u found e kept _) = (
      subst IsFaithful (sym kept) (stored-IsFaithful q (fetch w).0 s answers faithful),
      λ v p e'. faithful.entry q v p (found ∙ ground (arith, e, e')),
    )

    pub get_or_fetch-IsFaithful : IsFaithful (get_or_fetch (key q) fetch s w).1
    get_or_fetch-IsFaithful = (served _ _ _ (get_or_fetch_law (key q) fetch s w)).0

    pub get_or_fetch-Answers :
        (v : V) → IsPlain q → (get_or_fetch (key q) fetch s w).0 ≡ ok v → Answers q v
    get_or_fetch-Answers = (served _ _ _ (get_or_fetch_law (key q) fetch s w)).1

-- The world after the call is the one before it, or the one that the fetch leaves.
pub get_or_fetch-world :
    {V W : Type 0} (f : FetchingClient V) (k : GoString) (fetch : W → Result V × W)
    (s : f.client.Store) (w : W) (Q : W → Type 0)
    → Q w
    → Q (fetch w).1
    → Q (f.get_or_fetch k fetch s w).2
get_or_fetch-world {V} {W} f k fetch s w Q h g = at (f.get_or_fetch_law k fetch s w)
  where
    at : {r : Result V} {t : f.client.Store} {x : W} → Fetched f.client k fetch s w r t x → Q x
    at (hit u found e kept same) = subst Q (sym same) h
    at (miss e kept same) = subst Q (sym same) g
    at (refreshed u found e kept same) = subst Q (sym same) g
