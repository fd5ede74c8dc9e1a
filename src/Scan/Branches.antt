-- ===== src/Scan/Branches.antt =====
-- pkg/bitbucket/pagination.go over a list of branches that an API serves in pages.
use gitfusion.Prelude.{
  ℕ, zero, suc, ◌+◌, ◌≤◌, ◌≡◌, refl, ap, sym, ◌∙◌, true, some, List, [], ◌∷◌, ◌++◌, append-nil, map,
  length, concat, GoString, nonempty, ℤ, pos, go_add-pos, int_max, arith,
}
use gitfusion.GoError.{Result, ok}
use gitfusion.Scan.{Yield, BranchesPage, scan_bitbucket, yield_all}
use gitfusion.Scan.Laws.{deliver, deliver-items, next_page-resume, next_page-last}

-- The API's paging: page `number` has the items, and a link to the next page, if there are more.
abbrev pub Serves :
    {T : Type 0} → (ℤ → Result (BranchesPage T)) → ℕ → List T → List (List T) → Type 0
Serves fetch number items [] =
    fetch (pos number) ≡ ok (record { branches = items; next = []; page = pos number })
Serves fetch number items (more ∷ rest) =
    ((link : GoString) × (nonempty link ≡ true)
      × (fetch (pos number) ≡ ok (record { branches = items; next = link; page = pos number })))
    × Serves fetch (suc number) more rest

map-append : {T U : Type 0} (f : T → U) (xs ys : List T) → map f (xs ++ ys) ≡ map f xs ++ map f ys
map-append f [] ys = refl
map-append f (x ∷ xs) ys = ap (λ l. f x ∷ l) (map-append f xs ys)

module _ {T S : Type 0} (yield : Yield T S) (fetch : ℤ → Result (BranchesPage T)) where
  last_page :
      (n : ℕ) (page number : ℤ) (items : List T) (s : S)
      → fetch page ≡ ok (record { branches = items; next = []; page = number })
      → scan_bitbucket (suc n) fetch page yield s ≡ some (deliver yield (map ok items) s)
  unfolding scan_bitbucket
  last_page n page number items s read =
      rw (read, scan_bitbucket)
        (next_page-last yield (yield_all yield items s) _
          ∙ ap some
              (sym (deliver-items yield items [] s) ∙ ap (λ l. deliver yield l s) (append-nil _)))

  one_more :
      (n number : ℕ) (page : ℤ) (items rest : List T) (link : GoString) (s : S)
      → suc number ≤ int_max
      → nonempty link ≡ true
      → fetch page ≡ ok (record { branches = items; next = link; page = pos number })
      → ((t : S)
          → scan_bitbucket n fetch (pos (suc number)) yield t
            ≡ some (deliver yield (map ok rest) t))
      → scan_bitbucket (suc n) fetch page yield s ≡ some (deliver yield (map ok (items ++ rest)) s)
  unfolding scan_bitbucket
  one_more n number page items rest link s bound linked read go_on =
      rw (read, scan_bitbucket, linked)
        (next_page-resume yield (yield_all yield items s) _ (map ok rest) (λ t.
            ap (λ p. scan_bitbucket n fetch p yield t)
              (go_add-pos number 1 (omega (arith, bound)) ∙ ap pos (omega arith))
            ∙ go_on t)
          ∙ ap some (
              sym (deliver-items yield items (map ok rest) s)
              ∙ ap (λ l. deliver yield l s) (sym (map-append ok items rest))))

  -- From any page on, as many steps as there are pages are enough.
  pub scan_bitbucket-Serves :
      (fuel number : ℕ) (items : List T) (rest : List (List T)) (s : S)
      → length rest + 1 ≤ fuel
      → number + length rest ≤ int_max
      → Serves fetch number items rest
      → scan_bitbucket fuel fetch (pos number) yield s
        ≡ some (deliver yield (map ok (concat (items ∷ rest))) s)
  scan_bitbucket-Serves zero number items rest s h k serves = absurd (omega arith)
  scan_bitbucket-Serves (suc n) number items [] s h k serves =
      last_page n (pos number) (pos number) items s serves
      ∙ ap (λ l. some (deliver yield (map ok l) s)) (sym (append-nil items))
  scan_bitbucket-Serves (suc n) number items (more ∷ rest) s h k ((link, linked, read), serves) =
      one_more n number (pos number) items (more ++ concat rest) link s (omega arith) linked read
        (λ t. scan_bitbucket-Serves n (suc number) more rest t (omega arith) (omega arith) serves)

  first_page :
      (n : ℕ) (s : S)
      → fetch (pos 0) ≡ fetch (pos 1)
      → scan_bitbucket (suc n) fetch (pos 0) yield s ≡ scan_bitbucket (suc n) fetch (pos 1) yield s
  unfolding scan_bitbucket
  first_page n s same = rw (same, scan_bitbucket) refl

  -- If the API serves a list of pages from page 1 on, which it also gives for a request without a
  -- number, then the iterator ends after one request for each page, and the consumer receives the
  -- branches of all the pages in order until it stops.
  pub scan_bitbucket-deliver :
      (fuel : ℕ) (items : List T) (rest : List (List T)) (s : S)
      → length rest + 1 ≤ fuel
      → 1 + length rest ≤ int_max
      → fetch (pos 0) ≡ fetch (pos 1)
      → Serves fetch 1 items rest
      → scan_bitbucket fuel fetch (pos 0) yield s
        ≡ some (deliver yield (map ok (concat (items ∷ rest))) s)
  scan_bitbucket-deliver zero items rest s h k same serves = absurd (omega arith)
  scan_bitbucket-deliver (suc n) items rest s h k same serves =
      first_page n s same ∙ scan_bitbucket-Serves (suc n) 1 items rest s h k serves
