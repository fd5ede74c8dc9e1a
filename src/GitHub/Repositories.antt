-- ===== src/GitHub/Repositories.antt =====
-- Repositories, branches and organizations: the rest of internal/services/github/github.go.
use gitfusion.Prelude.{
  ℕ, ◌≡◌, refl, Bool, true, false, ◌&&◌, ◌||◌, Option, none, some, List, [], ◌∷◌, GoString, ◌==◌,
  nat_eq, ℤ, pos, if◌then◌else◌, Bool-cases, inl, inr, arith, ap, ◌∙◌,
}
use gitfusion.Common.{value_or_empty}
use gitfusion.GoError.{Result, ok, err}
use gitfusion.Scan.{Yield, Seq, scan_github}
use gitfusion.Scan.Laws.{deliver, events, scan_github-deliver}
use gitfusion.GitHub.Types.{GithubRepository}

-- strings.HasPrefix and strings.Contains
unfoldable pub has_prefix : GoString → GoString → Bool
has_prefix s [] = true
has_prefix [] (d ∷ p) = false
has_prefix (c ∷ s) (d ∷ p) = c == d && has_prefix s p

unfoldable pub contains_text : GoString → GoString → Bool
unfolding has_prefix
contains_text [] p = has_prefix [] p
contains_text (c ∷ s) p = has_prefix (c ∷ s) p || contains_text s p

-- The parameter is `strings.ToLower`, whose tables are those of Unicode.
module _ (to_lower : GoString → GoString) where
  -- Does a repository pass the filter? A nil one passes only where there is no filter.
  unfoldable pub name_matches : Option GoString → Option GithubRepository → Bool
  unfolding contains_text
  name_matches none repo = true
  name_matches (some name) none = false
  name_matches (some name) (some repo) =
      contains_text (to_lower (value_or_empty repo.name)) (to_lower name)

  -- The consumer that `filterRepositoriesByName` hands to the inner iterator.
  unfoldable pub filter_yield :
      {S : Type 0}
      → Option GoString
      → Yield (Option GithubRepository) S
      → Yield (Option GithubRepository) S
  unfolding name_matches
  filter_yield name yield (err e) s = yield (err e) s
  filter_yield name yield (ok repo) s =
      if name_matches name repo then yield (ok repo) s else (s, true)

  unfoldable pub filter_repositories_by_name :
      {S : Type 0}
      → Seq (Option GithubRepository) S
      → Option GoString
      → Seq (Option GithubRepository) S
  unfolding filter_yield
  filter_repositories_by_name scan name yield s = scan (filter_yield name yield) s

  -- The events that the filter lets through: every error, and the repositories that match.
  unfoldable pub matching :
      Option GoString
      → List (Result (Option GithubRepository))
      → List (Result (Option GithubRepository))
  matching name [] = []
  matching name (err e ∷ es) = err e ∷ matching name es
  matching name (ok repo ∷ es) =
      let rest = matching name es in if name_matches name repo then ok repo ∷ rest else rest

  deliver-filter_yield :
      {S : Type 0} (name : Option GoString) (yield : Yield (Option GithubRepository) S)
      (es : List (Result (Option GithubRepository))) (s : S)
      → deliver (filter_yield name yield) es s ≡ deliver yield (matching name es) s
  unfolding deliver filter_yield matching
  deliver-filter_yield name yield [] s = refl
  deliver-filter_yield name yield (err e ∷ es) s =
      ground (arith, deliver-filter_yield name yield es (yield (err e) s).0)
  deliver-filter_yield name yield (ok repo ∷ es) s = elim (Bool-cases (name_matches name repo)) [
    | inl hit ↦ ground (arith, hit, deliver-filter_yield name yield es (yield (ok repo) s).0)
    | inr miss ↦ ground (arith, miss, deliver-filter_yield name yield es s)
  ]

  -- Filtering the pages of an API: if they end within the fuel, the consumer receives the matching
  -- repositories in order, and the error last, until it stops.
  pub filter_repositories_by_name_lem :
      {S : Type 0} (n : ℕ) (fetch : ℤ → ℤ → Result (List (Option GithubRepository) × ℤ))
      (per_page : ℤ) (name : Option GoString) (yield : Yield (Option GithubRepository) S)
      (es : List (Result (Option GithubRepository))) (s : S)
      → events n (λ page. fetch page per_page) (pos 0) ≡ some es
      → filter_repositories_by_name (scan_github n fetch per_page) name yield s
        ≡ some (deliver yield (matching name es) s)
  unfolding filter_repositories_by_name
  filter_repositories_by_name_lem n fetch per_page name yield es s h =
      scan_github-deliver (filter_yield name yield) n fetch per_page es s h
      ∙ ap some (deliver-filter_yield name yield es s)
