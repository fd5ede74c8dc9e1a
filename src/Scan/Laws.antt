-- ===== src/Scan/Laws.antt =====
-- Iterators deliver the items of the pages in order, up to the first error or the consumer's stop.
use gitfusion.Prelude.{
  ℕ, zero, suc, ◌≡◌, refl, ap, sym, ◌∙◌, Bool, true, false, Option, none, some, List, [], ◌∷◌, ◌++◌,
  append_assoc, append-nil, map, ◌==◌, int_eq, ℤ, pos, inl, inr, arith,
}
use gitfusion.GoError.{GoError, Result, ok, err, Result-cases}
use gitfusion.Scan.{
  Yield, yield_all, next_page, scan_from, scan_github, collect_yield, collect_from_scan,
}

of_some {ℓ} : {A : Type ℓ} {a b : A} → some a ≡ some b → a ≡ b
of_some e = cc

-- What a consumer makes of a sequence of items and errors.
unfoldable pub deliver : {T S : Type 0} → Yield T S → List (Result T) → S → S
deliver yield [] s = s
deliver yield (e ∷ es) s = elim ((yield e s).1) [
  | true ↦ deliver yield es (yield e s).0
  | false ↦ (yield e s).0
]

join_events : {T : Type 0} → Bool → List T → Option (List (Result T)) → Option (List (Result T))
join_events true items rest = some (map ok items)
join_events false items none = none
join_events false items (some es) = some (map ok items ++ es)

-- The items of the pages from a page on, with an error at the end if a page fails; `none` if the
-- pages go on beyond the fuel.
unfoldable pub events : {T : Type 0} → ℕ → (ℤ → Result (List T × ℤ)) → ℤ → Option (List (Result T))
unfolding join_events
events zero fetch page = none
events (suc n) fetch page = elim (fetch page) [
  | err e ↦ some (err e ∷ [])
  | ok (items, next) ↦ join_events (next == pos 0) items (events n fetch next)
]

module _ {T S : Type 0} (yield : Yield T S) where
  -- Going on after a page.
  unfoldable pub resume : S × Bool → List (Result T) → S
  resume (s, true) es = deliver yield es s
  resume (s, false) es = s

  pub deliver-items :
      (items : List T) (es : List (Result T)) (s : S)
      → deliver yield (map ok items ++ es) s ≡ resume (yield_all yield items s) es
  unfolding deliver resume yield_all
  deliver-items [] es s = refl
  deliver-items (x ∷ xs) es s = ground (arith, deliver-items xs es (yield (ok x) s).0)

  pub next_page-resume :
      (o : S × Bool) (next : S → Option S) (es : List (Result T))
      → ((s : S) → next s ≡ some (deliver yield es s))
      → next_page o false next ≡ some (resume o es)
  unfolding next_page resume
  next_page-resume (s, true) next es h = h s
  next_page-resume (s, false) next es h = refl

  pub next_page-last :
      (o : S × Bool) (next : S → Option S) → next_page o true next ≡ some (resume o [])
  unfolding next_page resume deliver
  next_page-last (s, true) next = refl
  next_page-last (s, false) next = refl

  one_page :
      (items : List T) (next : S → Option S) (last : Bool) (rest : Option (List (Result T)))
      (es : List (Result T)) (s : S)
      → ((l : List (Result T)) (t : S) → rest ≡ some l → next t ≡ some (deliver yield l t))
      → join_events last items rest ≡ some es
      → next_page (yield_all yield items s) last next ≡ some (deliver yield es s)
  unfolding join_events
  one_page items next true rest es s ih h =
      next_page-last (yield_all yield items s) next
      ∙ ap some
          (sym (deliver-items items [] s) ∙ ap (λ l. deliver yield l s) (append-nil _ ∙ of_some h))
  one_page items next false none es s ih h = ground arith
  one_page items next false (some l) es s ih h =
      next_page-resume (yield_all yield items s) next l (λ t. ih l t refl)
      ∙ ap some (sym (deliver-items items l s) ∙ ap (λ z. deliver yield z s) (of_some h))

  deliver-error : (e : GoError) (s : S) → deliver yield (err e ∷ []) s ≡ (yield (err e) s).0
  unfolding deliver
  deliver-error e s = ground arith

  scan_from-deliver :
      (n : ℕ) (fetch : ℤ → Result (List T × ℤ)) (page : ℤ) (es : List (Result T)) (s : S)
      → events n fetch page ≡ some es
      → scan_from n fetch page yield s ≡ some (deliver yield es s)
  unfolding scan_from events
  scan_from-deliver zero fetch page es s h = ground arith
  scan_from-deliver (suc n) fetch page es s h = elim (Result-cases (fetch page)) [
    | inr (e, failed) ↦
        rw (failed, scan_from)
          (ap some (
            sym (deliver-error e s)
            ∙ ap (λ l. deliver yield l s) (of_some (rw (failed, events) at h))))
    | inl ((items, next), read) ↦
        rw (read, scan_from)
          (one_page items (λ t. scan_from n fetch next yield t) (next == pos 0)
            (events n fetch next) es s (λ l t e. scan_from-deliver n fetch next l t e)
            (rw (read, events) at h))
  ]

  -- If the pages end within the fuel, at the last page or at an error, the consumer receives exactly
  -- their items in order, and the error last, until it stops.
  pub scan_github-deliver :
      (n : ℕ) (fetch : ℤ → ℤ → Result (List T × ℤ)) (per_page : ℤ) (es : List (Result T)) (s : S)
      → events n (λ page. fetch page per_page) (pos 0) ≡ some es
      → scan_github n fetch per_page yield s ≡ some (deliver yield es s)
  unfolding scan_github
  scan_github-deliver n fetch per_page es s h =
      scan_from-deliver n (λ page. fetch page per_page) (pos 0) es s h

-- The items before the first error, and that error.
unfoldable pub until_error : {T : Type 0} → List (Result T) → List T × Option GoError
until_error [] = ([], none)
until_error (err e ∷ es) = ([], some e)
until_error (ok x ∷ es) = (x ∷ (until_error es).0, (until_error es).1)

deliver-collect_yield :
    {T : Type 0} (es : List (Result T)) (items : List T)
    → deliver collect_yield es (items, none) ≡ (items ++ (until_error es).0, (until_error es).1)
unfolding deliver collect_yield until_error
deliver-collect_yield [] items = ground (arith, append-nil items)
deliver-collect_yield (err e ∷ es) items = ground (arith, append-nil items)
deliver-collect_yield (ok x ∷ es) items =
    deliver-collect_yield es (items ++ x ∷ [])
    ∙ ap (λ l. (l, (until_error es).1)) (append_assoc items (x ∷ []) (until_error es).0)

-- If the pages end within the fuel, `CollectFromScan` over them gives their items before the first
-- error, and that error if there is one.
pub collect_from_scan-scan_github :
    {T : Type 0} (n : ℕ) (fetch : ℤ → ℤ → Result (List T × ℤ)) (per_page : ℤ) (es : List (Result T))
    → events n (λ page. fetch page per_page) (pos 0) ≡ some es
    → collect_from_scan (scan_github n fetch per_page) ≡ some (until_error es)
unfolding collect_from_scan
collect_from_scan-scan_github n fetch per_page es h =
    scan_github-deliver collect_yield n fetch per_page es ([], none) h
    ∙ ap some (deliver-collect_yield es [])
