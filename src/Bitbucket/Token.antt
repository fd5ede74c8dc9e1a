-- ===== src/Bitbucket/Token.antt =====
-- `decodeBitbucketToken` of internal/services/bitbucket/bitbucket.go.
use gitfusion.Prelude.{
  ℕ, ◌≡◌, ◌<◌, refl, none, some, List, [], ◌∷◌, ◌++◌, All, GoString, str, count, ◌==◌, nat_eq,
  if◌then◌else◌, Bool-cases, inl, inr, arith,
}
use gitfusion.GoError.{GoError, Result, ok, err, message, wrapped}
use gitfusion.Bitbucket.Base64.{decode, encode, IsByte, decode-encode}

-- strings.Split(s, sep) for a separator of one byte: the parts, one at least.
abbrev onto_first : ℕ → List GoString → List GoString
onto_first c [] = (c ∷ []) ∷ []
onto_first c (part ∷ parts) = (c ∷ part) ∷ parts

unfoldable pub split : ℕ → GoString → List GoString
split sep [] = [] ∷ []
split sep (c ∷ s) = let parts = split sep s in if c == sep then [] ∷ parts else onto_first c parts

-- `len(basicAuth) != 2`
abbrev pub two_parts : List GoString → Result (GoString × GoString)
two_parts [] = err (message (str "invalid token format"))
two_parts (u ∷ []) = err (message (str "invalid token format"))
two_parts (u ∷ p ∷ []) = ok (u, p)
two_parts (u ∷ p ∷ q ∷ r) = err (message (str "invalid token format"))

-- The parameter is the text of the decoder's error, which holds an offset.
module _ (corrupt : GoString → GoError) where
  unfoldable pub decode_token : GoString → Result (GoString × GoString)
  unfolding decode split
  decode_token token = elim (decode token) [
    | none ↦ err (wrapped (str "failed to decode token: ") (corrupt token))
    | some text ↦ two_parts (split b':' text)
  ]

pub split-no_sep : (sep : ℕ) (s : GoString) → count sep s ≡ 0 → split sep s ≡ s ∷ []
unfolding split count
split-no_sep sep [] h = refl
split-no_sep sep (c ∷ s) h = ground (arith, split-no_sep sep s)

-- The text before a separator stands in front of the parts after it.
abbrev before : GoString → List GoString → List GoString
before u [] = u ∷ []
before u (part ∷ parts) = (u ++ part) ∷ parts

pub split-prefix :
    (sep : ℕ) (u s : GoString) → count sep u ≡ 0 → split sep (u ++ sep ∷ s) ≡ u ∷ split sep s
unfolding split count
split-prefix sep [] s h = ground arith
split-prefix sep (c ∷ u) s h = ground (arith, split-prefix sep u s)

split_some : (sep : ℕ) (s : GoString) → (a : GoString) × (r : List GoString) × (split sep s ≡ a ∷ r)
unfolding split
split_some sep [] = (_, _, refl)
split_some sep (c ∷ s) = elim (Bool-cases (c == sep)) [
  | inl e ↦ ([], split sep s, ground (arith, e))
  | inr e ↦ (let (a, r, h) = split_some sep s in (c ∷ a, r, ground (arith, e, h)))
]

-- A separator in the text gives two parts at least.
split_more :
    (sep : ℕ) (s : GoString)
    → 0 < count sep s
    → (a : GoString) × (b : GoString) × (r : List GoString) × (split sep s ≡ a ∷ b ∷ r)
unfolding split count
split_more sep [] h = absurd (omega arith)
split_more sep (c ∷ s) h = elim (Bool-cases (c == sep)) [
  | inl e ↦ (let (a, r, k) = split_some sep s in ([], a, r, ground (arith, e, k)))
  | inr e ↦
      (let (a, b, r, k) = split_more sep s (ground (arith, e, h)) in
        (c ∷ a, b, r, ground (arith, e, k)))
]

module _ (corrupt : GoString → GoError) where
  -- The token of a user name and a password without `:` is read back.
  pub decode_token-encode :
      (user password : GoString)
      → All IsByte (user ++ b':' ∷ password)
      → count b':' user ≡ 0
      → count b':' password ≡ 0
      → decode_token corrupt (encode (user ++ b':' ∷ password)) ≡ ok (user, password)
  unfolding decode_token
  decode_token-encode user password bytes h k =
      rw (decode-encode (user ++ b':' ∷ password) bytes, decode_token)
        (rw (split-prefix b':' user password h, split-no_sep b':' password k) refl)

  -- A password with a `:` in it, which basic authentication allows, makes the token invalid.
  pub decode_token_colon :
      (user password : GoString)
      → All IsByte (user ++ b':' ∷ password)
      → count b':' user ≡ 0
      → 0 < count b':' password
      → decode_token corrupt (encode (user ++ b':' ∷ password))
        ≡ err (message (str "invalid token format"))
  unfolding decode_token
  decode_token_colon user password bytes h k =
      let (a, b, r, e) = split_more b':' password k in
      rw (decode-encode (user ++ b':' ∷ password) bytes, decode_token)
        (rw (split-prefix b':' user password h, e) refl)
