-- ===== src/Bitbucket/Base64.antt =====
-- `base64.StdEncoding`: `DecodeString`, by which `decodeBitbucketToken` of
-- internal/services/bitbucket/bitbucket.go reads a token, and the encoding that it inverts.
use mathlib.Core.Path.{ap₂}
use Prim.Native.Nat.{◌/◌, ◌%◌}
use gitfusion.Prelude.{
  ℕ, ◌+◌, ◌-◌, ◌*◌, ◌<◌, ◌≡◌, refl, ap, Bool, true, false, not, ◌&&◌, ◌||◌, Option, none, some, [],
  ◌∷◌, ◌++◌, keep, All, ltb, leb, GoString, nonempty, ◌==◌, nat_eq, if◌then◌else◌, arith,
}

-- The six bits that a character of the alphabet stands for.
unfoldable pub sextet : ℕ → Option ℕ
sextet c =
    if leb b'A' c && leb c b'Z'
    then some (c - b'A')
    else if leb b'a' c && leb c b'z'
    then some (c - b'a' + 26)
    else if leb b'0' c && leb c b'9'
    then some (c - b'0' + 52)
    else if c == b'+'
    then some 62
    else if c == b'/'
    then some 63
    else none

abbrev one_byte : Option ℕ → Option ℕ → Option GoString
one_byte (some a) (some b) = some ((a * 4 + b / 16) ∷ [])
one_byte (some a) none = none
one_byte none b = none

abbrev two_bytes : Option ℕ → Option ℕ → Option ℕ → Option GoString
two_bytes (some a) (some b) (some c) = some ((a * 4 + b / 16) ∷ (b % 16 * 16 + c / 4) ∷ [])
two_bytes (some a) (some b) none = none
two_bytes (some a) none c = none
two_bytes none b c = none

abbrev three_bytes : Option ℕ → Option ℕ → Option ℕ → Option ℕ → Option GoString
three_bytes (some a) (some b) (some c) (some d) =
    some ((a * 4 + b / 16) ∷ (b % 16 * 16 + c / 4) ∷ (c % 4 * 64 + d) ∷ [])
three_bytes (some a) (some b) (some c) none = none
three_bytes (some a) (some b) none d = none
three_bytes (some a) none c d = none
three_bytes none b c d = none

-- Four characters; only the last four may end in one or two `=`. Bits that are left over are ignored.
unfoldable pub quad : Bool → ℕ → ℕ → ℕ → ℕ → Option GoString
unfolding sextet
quad last a b c d =
    if last && d == b'='
    then (if c == b'='
        then one_byte (sextet a) (sextet b)
        else two_bytes (sextet a) (sextet b) (sextet c))
    else three_bytes (sextet a) (sextet b) (sextet c) (sextet d)

abbrev join : Option GoString → Option GoString → Option GoString
join (some s) (some t) = some (s ++ t)
join (some s) none = none
join none t = none

unfoldable pub decode_quads : GoString → Option GoString
unfolding quad
decode_quads [] = some []
decode_quads (a ∷ []) = none
decode_quads (a ∷ b ∷ []) = none
decode_quads (a ∷ b ∷ c ∷ []) = none
decode_quads (a ∷ b ∷ c ∷ d ∷ s) = join (quad (not (nonempty s)) a b c d) (decode_quads s)

abbrev pub is_text : ℕ → Bool
is_text c = not (c == 10 || c == 13)

-- Line breaks are passed over, wherever they stand.
unfoldable pub decode : GoString → Option GoString
unfolding decode_quads
decode s = decode_quads (keep is_text s)

unfoldable pub digit : ℕ → ℕ
digit n =
    if ltb n 26
    then b'A' + n
    else if ltb n 52
    then b'a' + (n - 26)
    else if ltb n 62
    then b'0' + (n - 52)
    else if n == 62
    then b'+'
    else b'/'

unfoldable pub encode : GoString → GoString
unfolding digit
encode [] = []
encode (x ∷ []) = digit (x / 4) ∷ digit (x % 4 * 16) ∷ b'=' ∷ b'=' ∷ []
encode (x ∷ y ∷ []) = digit (x / 4) ∷ digit (x % 4 * 16 + y / 16) ∷ digit (y % 16 * 4) ∷ b'=' ∷ []
encode (x ∷ y ∷ z ∷ s) =
    digit (x / 4)
    ∷ digit (x % 4 * 16 + y / 16)
    ∷ digit (y % 16 * 4 + z / 64)
    ∷ digit (z % 64)
    ∷ encode s

abbrev pub IsByte : ℕ → Type 0
IsByte c = c < 256

sextet-digit : (n : ℕ) → n < 64 → sextet (digit n) ≡ some n
unfolding sextet digit
sextet-digit n h = ground arith

digit-is_text : (n : ℕ) → n < 64 → is_text (digit n) ≡ true
unfolding digit
digit-is_text n h = ground arith

digit-no_padding : (n : ℕ) → n < 64 → (digit n == b'=') ≡ false
unfolding digit
digit-no_padding n h = ground arith

keep-encode : (s : GoString) → All IsByte s → keep is_text (encode s) ≡ encode s
unfolding encode
keep-encode [] h = refl
keep-encode (x ∷ []) h =
    rw (digit-is_text (x / 4) (omega arith), digit-is_text (x % 4 * 16) (omega arith)) refl
keep-encode (x ∷ y ∷ []) h =
    rw
      (
        digit-is_text (x / 4) (omega arith),
        digit-is_text (x % 4 * 16 + y / 16) (omega arith),
        digit-is_text (y % 16 * 4) (omega arith),
      )
      refl
keep-encode (x ∷ y ∷ z ∷ s) h =
    rw
      (
        digit-is_text (x / 4) (omega arith),
        digit-is_text (x % 4 * 16 + y / 16) (omega arith),
        digit-is_text (y % 16 * 4 + z / 64) (omega arith),
        digit-is_text (z % 64) (omega arith),
        keep-encode s h.1.1.1,
      )
      refl

-- Four digits give their three bytes, at the end or not.
quad-digits :
    (last : Bool) (a b c d : ℕ)
    → a < 64
    → b < 64
    → c < 64
    → d < 64
    → quad last (digit a) (digit b) (digit c) (digit d)
      ≡ some ((a * 4 + b / 16) ∷ (b % 16 * 16 + c / 4) ∷ (c % 4 * 64 + d) ∷ [])
unfolding quad
quad-digits true a b c d ha hb hc hd =
    rw
      (
        digit-no_padding d hd,
        sextet-digit a ha,
        sextet-digit b hb,
        sextet-digit c hc,
        sextet-digit d hd,
      )
      refl
quad-digits false a b c d ha hb hc hd =
    rw (sextet-digit a ha, sextet-digit b hb, sextet-digit c hc, sextet-digit d hd) refl

decode_quads-encode : (s : GoString) → All IsByte s → decode_quads (encode s) ≡ some s
unfolding encode decode_quads
decode_quads-encode [] h = refl
decode_quads-encode (x ∷ []) h =
    unfold quad in
    rw (sextet-digit (x / 4) (omega arith), sextet-digit (x % 4 * 16) (omega arith))
      (ap (λ t. some (t ∷ [])) (omega arith))
decode_quads-encode (x ∷ y ∷ []) h =
    unfold quad in
    rw
      (
        digit-no_padding (y % 16 * 4) (omega arith),
        sextet-digit (x / 4) (omega arith),
        sextet-digit (x % 4 * 16 + y / 16) (omega arith),
        sextet-digit (y % 16 * 4) (omega arith),
      )
      (ap₂ (λ t u. some (t ∷ u ∷ [])) (omega arith) (omega arith))
decode_quads-encode (x ∷ y ∷ z ∷ s) h =
    rw
      (
        quad-digits (not (nonempty (encode s))) (x / 4) (x % 4 * 16 + y / 16) (y % 16 * 4 + z / 64)
            (z % 64) (omega arith) (omega arith) (omega arith) (omega arith),
        decode_quads-encode s h.1.1.1,
      )
      (three (omega arith) (omega arith) (omega arith))
  where
    three : {a b c : ℕ} → a ≡ x → b ≡ y → c ≡ z → some (a ∷ b ∷ c ∷ s) ≡ some (x ∷ y ∷ z ∷ s)
    three p q r = cc

-- Every text of bytes is read back from its encoding.
pub decode-encode : (s : GoString) → All IsByte s → decode (encode s) ≡ some s
unfolding decode
decode-encode s h = rw (keep-encode s h) (decode_quads-encode s h)
