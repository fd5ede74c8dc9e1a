-- ===== src/Scan.antt =====
-- Push iterators over the pages of an API: pkg/xiter, pkg/github/pagination.go and
-- pkg/bitbucket/pagination.go.
pub mod Laws
pub mod Range
pub mod Branches
use gitfusion.Prelude.{
  ℕ, zero, suc, Bool, true, false, Option, none, some, List, [], ◌∷◌, ◌++◌, GoString, nonempty,
  ◌==◌, int_eq, ℤ, pos, ltb_ℤ, go_add, if◌then◌else◌,
}
use gitfusion.GoError.{GoError, Result, ok, err}

-- A consumer takes an item or an error, changes its state, and says whether to go on.
abbrev pub Yield : Type 0 → Type 0 → Type 0
Yield T S = Result T → S → S × Bool

-- An iterator over `T`; `none` means that the fuel ran out.
abbrev pub Seq : Type 0 → Type 0 → Type 0
Seq T S = Yield T S → S → Option S

-- `for _, item := range list { if !yield(item, nil) { return } }`
unfoldable pub yield_all : {T S : Type 0} → Yield T S → List T → S → S × Bool
yield_all yield [] s = (s, true)
yield_all yield (x ∷ xs) s = elim ((yield (ok x) s).1) [
  | true ↦ yield_all yield xs (yield (ok x) s).0
  | false ↦ ((yield (ok x) s).0, false)
]

-- The loop goes on with the next page unless the consumer has stopped or there is none.
unfoldable pub next_page : {S : Type 0} → S × Bool → Bool → (S → Option S) → Option S
next_page (s, false) last next = some s
next_page (s, true) true next = some s
next_page (s, true) false next = next s

module _ {T S : Type 0} where
  -- `ScanGitHubList`: a page is its items and the number of the next page, 0 if there is none.
  unfoldable pub scan_from : ℕ → (ℤ → Result (List T × ℤ)) → ℤ → Seq T S
  unfolding yield_all next_page
  scan_from zero fetch page yield s = none
  scan_from (suc n) fetch page yield s = elim (fetch page) [
    | err e ↦ some (yield (err e) s).0
    | ok (items, next) ↦
        next_page (yield_all yield items s) (next == pos 0) (λ s'. scan_from n fetch next yield s')
  ]

  -- The first page is asked for without a number, which the client sends as 0.
  unfoldable pub scan_github : ℕ → (ℤ → ℤ → Result (List T × ℤ)) → ℤ → Seq T S
  unfolding scan_from
  scan_github fuel fetch per_page yield s =
      scan_from fuel (λ page. fetch page per_page) (pos 0) yield s

-- `WithPerPage`
unfoldable pub with_per_page : ℤ → ℤ → ℤ
with_per_page per_page default = if ltb_ℤ (pos 0) per_page then per_page else default

-- A page of branches of the Bitbucket client.
pub record BranchesPage (T : Type 0) : Type 0 where
  pub branches : List T
  pub next : GoString
  pub page : ℤ

module _ {T S : Type 0} where
  -- `ScanBitbucketBranches`: the next page's number is one more than the page's own.
  unfoldable pub scan_bitbucket : ℕ → (ℤ → Result (BranchesPage T)) → ℤ → Seq T S
  unfolding yield_all next_page go_add
  scan_bitbucket zero fetch page yield s = none
  scan_bitbucket (suc n) fetch page yield s = elim (fetch page) [
    | err e ↦ some (yield (err e) s).0
    | ok p ↦
        next_page (yield_all yield p.branches s) (if nonempty p.next then false else true)
          (λ s'. scan_bitbucket n fetch (go_add p.page (pos 1)) yield s')
  ]

-- `CollectFromScan`
unfoldable pub collect_yield : {T : Type 0} → Yield T (List T × Option GoError)
collect_yield (err e) (items, error) = ((items, some e), false)
collect_yield (ok x) (items, error) = ((items ++ x ∷ [], error), true)

unfoldable pub collect_from_scan :
    {T : Type 0} → Seq T (List T × Option GoError) → Option (List T × Option GoError)
unfolding collect_yield
collect_from_scan scan = scan collect_yield ([], none)
