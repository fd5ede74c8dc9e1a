-- ===== src/Scan/Range.antt =====
-- The loop `for x, err := range it { if err != nil { return nil, … }; result = append(result, …) }`
-- by which the providers under internal/services/github and internal/services/gitlab use iterators.
use gitfusion.Prelude.{
  ℕ, ◌≡◌, refl, ap, sym, ◌∙◌, true, false, Option, none, some, List, [], ◌∷◌, ◌++◌, append_assoc,
  append-nil, map, ℤ, pos,
}
use gitfusion.GoError.{GoError, Result, ok, err}
use gitfusion.Scan.{Yield, Seq, scan_github}
use gitfusion.Scan.Laws.{deliver, events, scan_github-deliver, until_error}

-- An item that gives nothing is passed over.
abbrev pub append_some : {U : Type 0} → List U → Option U → List U
append_some items none = items
append_some items (some u) = items ++ u ∷ []

abbrev pub cons_some : {U : Type 0} → Option U → List U → List U
cons_some none items = items
cons_some (some u) items = u ∷ items

abbrev pub finish_range : {U : Type 0} → List U × Option GoError → Result (List U)
finish_range (items, none) = ok items
finish_range (items, some e) = err e

-- The parameters are the wrapping of an error and the conversion of an item.
module _ {T U : Type 0} (wrap_error : GoError → GoError) (convert : T → Option U) where
  unfoldable pub range_yield : Yield T (List U × Option GoError)
  range_yield (err e) (items, error) = ((items, some (wrap_error e)), false)
  range_yield (ok x) (items, error) = ((append_some items (convert x), error), true)

  -- Over an iterator of the program.
  unfoldable pub range_scan : Seq T (List U × Option GoError) → Option (Result (List U))
  unfolding range_yield
  range_scan scan = elim (scan range_yield ([], none)) [
    | none ↦ none
    | some out ↦ some (finish_range out)
  ]

  -- Over an iterator of a client library, given by what it yields.
  unfoldable pub range_events : List (Result T) → List U → Result (List U)
  range_events [] items = ok items
  range_events (err e ∷ es) items = err (wrap_error e)
  range_events (ok x ∷ es) items = range_events es (append_some items (convert x))

  -- The converted items.
  unfoldable pub converted : List T → List U
  converted [] = []
  converted (x ∷ xs) = cons_some (convert x) (converted xs)

  -- The result after some items, for the items up to the first error and that error.
  unfoldable pub reply : List U → List T × Option GoError → Result (List U)
  unfolding converted
  reply items (xs, none) = ok (items ++ converted xs)
  reply items (xs, some e) = err (wrap_error e)

  append_some-cons_some :
      (items : List U) (o : Option U) (rest : List U)
      → append_some items o ++ rest ≡ items ++ cons_some o rest
  append_some-cons_some items none rest = refl
  append_some-cons_some items (some u) rest = append_assoc items (u ∷ []) rest

  reply-cons :
      (x : T) (items : List U) (xs : List T) (o : Option GoError)
      → reply (append_some items (convert x)) (xs, o) ≡ reply items (x ∷ xs, o)
  unfolding reply
  reply-cons x items xs none = ap ok (append_some-cons_some items (convert x) (converted xs))
  reply-cons x items xs (some e) = refl

  -- The loop over what a client's iterator yields returns the items before the first error, or
  -- that error.
  pub range_events-reply :
      (es : List (Result T)) (items : List U) → range_events es items ≡ reply items (until_error es)
  unfolding range_events until_error reply
  range_events-reply [] items = ap ok (sym (append-nil items))
  range_events-reply (err e ∷ es) items = refl
  range_events-reply (ok x ∷ es) items =
      range_events-reply es (append_some items (convert x))
      ∙ reply-cons x items (until_error es).0 (until_error es).1

  range_events-items :
      (xs : List T) (items : List U) → range_events (map ok xs) items ≡ ok (items ++ converted xs)
  unfolding range_events converted
  range_events-items [] items = ap ok (sym (append-nil items))
  range_events-items (x ∷ xs) items =
      range_events-items xs (append_some items (convert x))
      ∙ ap ok (append_some-cons_some items (convert x) (converted xs))

  deliver-range_yield :
      (es : List (Result T)) (items : List U)
      → finish_range (deliver range_yield es (items, none)) ≡ range_events es items
  unfolding deliver range_yield range_events
  deliver-range_yield [] items = refl
  deliver-range_yield (err e ∷ es) items = refl
  deliver-range_yield (ok x ∷ es) items = deliver-range_yield es (append_some items (convert x))

  -- The loop over the pages of an API, if they end within the fuel.
  pub range_scan-scan_github :
      (n : ℕ) (fetch : ℤ → ℤ → Result (List T × ℤ)) (per_page : ℤ) (es : List (Result T))
      → events n (λ page. fetch page per_page) (pos 0) ≡ some es
      → range_scan (scan_github n fetch per_page) ≡ some (reply [] (until_error es))
  unfolding range_scan
  range_scan-scan_github n fetch per_page es h =
      rw (scan_github-deliver range_yield n fetch per_page es ([], none) h, range_scan)
        (ap some (deliver-range_yield es [] ∙ range_events-reply es []))

  -- Over an iterator that yields some items and no error.
  pub range_scan-of_items :
      (scan : Seq T (List U × Option GoError)) (xs : List T)
      → scan range_yield ([], none) ≡ some (deliver range_yield (map ok xs) ([], none))
      → range_scan scan ≡ some (ok (converted xs))
  unfolding range_scan
  range_scan-of_items scan xs h =
      rw (h, range_scan) (ap some (deliver-range_yield (map ok xs) [] ∙ range_events-items xs []))
