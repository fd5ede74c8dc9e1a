-- ===== src/Bitbucket/Urls.antt =====
-- The URLs that internal/services/bitbucket/bitbucket.go builds for the parts of a repository.
use mathlib.Core.Path.{ap₂}
use Prim.Native.Nat.{◌/◌, ◌%◌}
use gitfusion.Prelude.{
  ℕ, ◌<◌, ◌≡◌, ◌≢◌, refl, sym, ap, ◌∙◌, Bool-cases, inl, inr, true, false, All, List, [], ◌∷◌, ◌++◌,
  GoString, str, count, ◌==◌, nat_eq, arith,
}
use gitfusion.Bitbucket.Base64.{IsByte}
use gitfusion.Bitbucket.Token.{split, split-prefix}
use gitfusion.Bitbucket.Calls.{stays, hex, path_escape, repository_url}

not_slash : (c : ℕ) → stays c ≡ true → (c == b'/') ≡ false
unfolding stays
not_slash c h = ground (arith, h)

hex-not_slash : (n : ℕ) → n < 16 → (hex n == b'/') ≡ false
unfolding hex
hex-not_slash n h = ground arith

hex-injective : (m n : ℕ) → m < 16 → n < 16 → hex m ≡ hex n → m ≡ n
unfolding hex
hex-injective m n h k e = ground arith

not_percent : stays b'%' ≡ false
unfolding stays
not_percent = refl

escape_kept : (c : ℕ) (s : GoString) → stays c ≡ true → path_escape (c ∷ s) ≡ c ∷ path_escape s
unfolding path_escape
escape_kept c s e = rw e refl

escape_hex :
    (c : ℕ) (s : GoString)
    → stays c ≡ false
    → path_escape (c ∷ s) ≡ b'%' ∷ hex (c / 16) ∷ hex (c % 16) ∷ path_escape s
unfolding path_escape
escape_hex c s e = rw e refl

-- An escaped text has no `/`.
pub path_escape-no_slash : (s : GoString) → All IsByte s → count b'/' (path_escape s) ≡ 0
unfolding count
path_escape-no_slash [] h = unfold path_escape in refl
path_escape-no_slash (c ∷ s) h = elim (Bool-cases (stays c)) [
  | inl e ↦ rw (escape_kept c s e, not_slash c e) (path_escape-no_slash s h.1)
  | inr e ↦
      rw
        (
          escape_hex c s e,
          hex-not_slash (c / 16) (omega (arith, h.0)),
          hex-not_slash (c % 16) (omega arith),
        )
        (path_escape-no_slash s h.1)
]

same_cons : {c d : ℕ} {s t : GoString} → c ∷ s ≡ d ∷ t → (c ≡ d) × (s ≡ t)
same_cons e = (cc, cc)

same_byte :
    (c d : ℕ)
    → c < 256
    → d < 256
    → hex (c / 16) ≡ hex (d / 16)
    → hex (c % 16) ≡ hex (d % 16)
    → c ≡ d
same_byte c d h k e f =
    let high = hex-injective (c / 16) (d / 16) (omega arith) (omega arith) e in
    let low = hex-injective (c % 16) (d % 16) (omega arith) (omega arith) f in omega arith

starts : (c : ℕ) (s : GoString) → (a : ℕ) × (t : GoString) × (path_escape (c ∷ s) ≡ a ∷ t)
starts c s = elim (Bool-cases (stays c)) [
  | inl e ↦ (_, _, escape_kept c s e)
  | inr e ↦ (_, _, escape_hex c s e)
]

escape_nil : path_escape [] ≡ []
unfolding path_escape
escape_nil = refl

not_nil : (c : ℕ) (s : GoString) {A : Type 0} → [] ≡ path_escape (c ∷ s) → A
not_nil c s e = let (a, r, f) = starts c s in absurd (ground (arith, e ∙ f))

kept_not_percent : (c : ℕ) → stays c ≡ true → c ≢ b'%'
kept_not_percent c h e = ground (arith, sym (ap stays e) ∙ h, not_percent)

path_escape-injective :
    (s t : GoString) → All IsByte s → All IsByte t → path_escape s ≡ path_escape t → s ≡ t
path_escape-injective [] [] h k e = refl
path_escape-injective [] (d ∷ t) h k e = not_nil d t (sym escape_nil ∙ e)
path_escape-injective (c ∷ s) [] h k e = not_nil c s (sym escape_nil ∙ sym e)
path_escape-injective (c ∷ s) (d ∷ t) h k e = elim (Bool-cases (stays c)) [
  | inl p ↦ elim (Bool-cases (stays d)) [
    | inl q ↦
        let (x, y) = same_cons (sym (escape_kept c s p) ∙ e ∙ escape_kept d t q) in
        ap₂ (λ a l. a ∷ l) x (path_escape-injective s t h.1 k.1 y)
    | inr q ↦
        absurd (kept_not_percent c p (same_cons (sym (escape_kept c s p) ∙ e ∙ escape_hex d t q)).0)
  ]
  | inr p ↦ elim (Bool-cases (stays d)) [
    | inl q ↦
        absurd (
          kept_not_percent d q (sym (same_cons (sym (escape_hex c s p) ∙ e ∙ escape_kept d t q)).0))
    | inr q ↦
        let (x, y) = same_cons (sym (escape_hex c s p) ∙ e ∙ escape_hex d t q) in
        let (u, v) = same_cons y in
        let (w, z) = same_cons v in
        ap₂ (λ a l. a ∷ l) (same_byte c d h.0 k.0 u w) (path_escape-injective s t h.1 k.1 z)
  ]
]

-- Read by its segments, the path of a request for a part of a repository is `repositories`, the
-- owner, the repository and the part, whatever bytes the names have: a `/` in a name adds no segment.
pub split-repository_url :
    (owner repo part : GoString)
    → All IsByte owner
    → All IsByte repo
    → split b'/' (repository_url owner repo part)
      ≡ str "https:"
        ∷ []
        ∷ str "api.bitbucket.org"
        ∷ str "2.0"
        ∷ str "repositories"
        ∷ path_escape owner
        ∷ path_escape repo
        ∷ split b'/' part
split-repository_url owner repo part h k =
    unfold repository_url split in
    rw
      (
        split-prefix b'/' (path_escape owner) (path_escape repo ++ b'/' ∷ part)
            (path_escape-no_slash owner h),
        split-prefix b'/' (path_escape repo) part (path_escape-no_slash repo k),
      )
      refl

seventh :
    {a b c d e x y x' y' : GoString} {l l' : List GoString}
    → a ∷ b ∷ c ∷ d ∷ e ∷ x ∷ y ∷ l ≡ a ∷ b ∷ c ∷ d ∷ e ∷ x' ∷ y' ∷ l'
    → (x ≡ x') × (y ≡ y')
seventh e = (cc, cc)

-- The URLs for a part of two repositories are the same only if the owners and the names are.
pub repository_url-injective :
    (o r o' r' part : GoString)
    → All IsByte o
    → All IsByte r
    → All IsByte o'
    → All IsByte r'
    → repository_url o r part ≡ repository_url o' r' part
    → (o ≡ o') × (r ≡ r')
repository_url-injective o r o' r' part ho hr ho' hr' e =
    let (x, y) = seventh (
      sym (split-repository_url o r part ho hr)
      ∙ ap (split b'/') e
      ∙ split-repository_url o' r' part ho' hr') in
    (path_escape-injective o o' ho ho' x, path_escape-injective r r' hr hr' y)
