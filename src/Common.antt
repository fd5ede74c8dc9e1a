-- ===== src/Common.antt =====
-- internal/services/common/project.go, and pkg/pointer.
use gitfusion.Prelude.{
  ℕ, ◌≡◌, true, ◌||◌, not, Option, none, some, [], ◌∷◌, ◌++◌, GoString, str, ◌==◌, nat_eq,
  string_eq, nonempty, Bool-cases, if◌then◌else◌, arith, inl, inr, count, Option-cases,
}
use gitfusion.GoError.{GoError, Result, ok, err, wrapped, sentinel, bad_request}

-- `pointer.ValueOrEmpty` at strings.
abbrev pub value_or_empty : Option GoString → GoString
value_or_empty none = []
value_or_empty (some s) = s

-- strings.SplitN(s, sep, 2) for a separator of one byte; `none` if the separator is not there.
unfoldable pub cut : ℕ → GoString → Option (GoString × GoString)
cut sep [] = none
cut sep (c ∷ s) =
    if c == sep
    then some ([], s)
    else (elim (cut sep s) [ none ↦ none | some (a, b) ↦ some (c ∷ a, b) ])

-- The parameter is Go's `%q` verb.
module _ (quote : GoString → GoString) where
  invalid_project : GoString → GoError
  invalid_project project =
      wrapped (str "invalid project format " ++ quote project ++ str ": expected \"owner/repo\": ")
        (sentinel bad_request)

  unfoldable pub split_project : GoString → Result (GoString × GoString)
  unfolding cut invalid_project
  split_project project = elim (cut b'/' project) [
    | none ↦ err (invalid_project project)
    | some (first, second) ↦
        if not (nonempty first) || not (nonempty second)
        then err (invalid_project project)
        else ok (first, second)
  ]

-- The text is the first part, which has no separator, the separator and the second part.
cut-parts :
    (sep : ℕ) (s a b : GoString) → cut sep s ≡ some (a, b) → (s ≡ a ++ sep ∷ b) × (count sep a ≡ 0)
unfolding cut count
cut-parts sep [] a b h = absurd (ground arith)
cut-parts sep (c ∷ s) a b h = elim (Bool-cases (c == sep)) [
  | inl e ↦ ground (arith, h, e)
  | inr e ↦ elim (Option-cases (cut sep s)) [
    | inl p ↦ absurd (ground (arith, h, e, p))
    | inr ((x, y), p) ↦
        let parts = cut-parts sep s x y p in
        let same : some (c ∷ x, y) ≡ some (a, b) = rw (e, p) at h in
        ground (arith, e, same, parts.0, parts.1)
  ]
]

cut-append : (sep : ℕ) (a b : GoString) → count sep a ≡ 0 → cut sep (a ++ sep ∷ b) ≡ some (a, b)
unfolding cut count
cut-append sep [] b h = ground arith
cut-append sep (c ∷ a) b h = ground (arith, cut-append sep a b)

module _ (quote : GoString → GoString) where
  -- An owner without `/` and a repository, both not empty, are read back from `owner/repo`; the
  -- repository may have a `/` in it.
  pub split_project-join :
      (owner repo : GoString)
      → count b'/' owner ≡ 0
      → nonempty owner ≡ true
      → nonempty repo ≡ true
      → split_project quote (owner ++ b'/' ∷ repo) ≡ ok (owner, repo)
  unfolding split_project
  split_project-join owner repo h k l =
      rw (cut-append b'/' owner repo h, split_project) (ground (arith, k, l))

  -- If a project text is accepted, it is `owner/repo` with both parts not empty and no `/` in the
  -- owner.
  pub split_project-eq-ok :
      (project owner repo : GoString)
      → split_project quote project ≡ ok (owner, repo)
      → (project ≡ owner ++ b'/' ∷ repo)
        × (count b'/' owner ≡ 0)
        × (nonempty owner ≡ true)
        × (nonempty repo ≡ true)
  unfolding split_project
  split_project-eq-ok project owner repo h = elim (Option-cases (cut b'/' project)) [
    | inl e ↦ absurd (ground (arith, e, h))
    | inr ((x, y), e) ↦
        let parts = cut-parts b'/' project x y e in
        let checked : (if not (nonempty x) || not (nonempty y)
              then err (invalid_project quote project)
              else ok (x, y))
            ≡ ok (owner, repo) =
          rw (e, split_project) at h in
        ground (arith, checked, parts.0, parts.1)
  ]
