-- ===== src/Api/Numbers.antt =====
-- `strconv.Atoi`, by which internal/api/pipeline_handler.go reads its numeric parameters.
use Prim.Native.Nat.{◌/◌, ◌%◌}
use gitfusion.Prelude.{
  ℕ, zero, suc, ◌+◌, ◌≡◌, ◌≤◌, refl, Bool, true, false, ◌&&◌, ◌++◌, Option, none, some, [], ◌∷◌,
  All, leb, GoString, nonempty, ◌==◌, nat_eq, ℤ, itoa, itoa_nat, digits, value, value-digits,
  IsDigit, digits-IsDigit, if◌then◌else◌, arith, int_max, pos_part, neg_part,
}

unfoldable pub all_digits : GoString → Bool
all_digits [] = true
all_digits (c ∷ s) = leb b'0' c && leb c b'9' && all_digits s

-- The magnitude, if the text is digits only and at most the given bound.
unfoldable pub magnitude : ℕ → GoString → Option ℕ
unfolding all_digits value
magnitude bound s =
    if nonempty s && all_digits s && leb (value 0 s) bound then some (value 0 s) else none

minus : ℕ → ℤ
minus zero = ℤ.pos 0
minus (suc n) = ℤ.negsuc n

-- An optional sign and digits, in the range of a 64-bit `int`.
unfoldable pub atoi : GoString → Option ℤ
unfolding magnitude minus
atoi [] = none
atoi (c ∷ s) =
    if c == b'-'
    then (elim (magnitude (int_max + 1) s) [ none ↦ none | some n ↦ some (minus n) ])
    else if c == b'+'
    then (elim (magnitude int_max s) [ none ↦ none | some n ↦ some (ℤ.pos n) ])
    else (elim (magnitude int_max (c ∷ s)) [ none ↦ none | some n ↦ some (ℤ.pos n) ])

All-all_digits : (s : GoString) → All IsDigit s → all_digits s ≡ true
unfolding all_digits
All-all_digits [] h = refl
All-all_digits (c ∷ s) h = ground (arith, h.0, All-all_digits s h.1)

nonempty_append : (s t : GoString) (c : ℕ) → nonempty (s ++ c ∷ t) ≡ true
nonempty_append [] t c = refl
nonempty_append (d ∷ s) t c = refl

itoa_nat-nonempty : (n : ℕ) → nonempty (itoa_nat n) ≡ true
unfolding itoa_nat digits
itoa_nat-nonempty n = ground (arith, nonempty_append (digits n (n / 10)) [] (b'0' + n % 10))

itoa_nat-IsDigit : (n : ℕ) → All IsDigit (itoa_nat n)
unfolding itoa_nat
itoa_nat-IsDigit n = digits-IsDigit (suc n) n

value-itoa_nat : (n : ℕ) → value 0 (itoa_nat n) ≡ n
unfolding itoa_nat
value-itoa_nat n = value-digits (suc n) n (omega arith)

magnitude-itoa_nat : (bound n : ℕ) → n ≤ bound → magnitude bound (itoa_nat n) ≡ some n
unfolding magnitude
magnitude-itoa_nat bound n h =
    rw
      (
        itoa_nat-nonempty n,
        All-all_digits (itoa_nat n) (itoa_nat-IsDigit n),
        value-itoa_nat n,
        magnitude,
      )
      (ground arith)

atoi_digits :
    (s : GoString)
    → All IsDigit s
    → nonempty s ≡ true
    → atoi s ≡ (elim (magnitude int_max s) [ none ↦ none | some n ↦ some (ℤ.pos n) ])
unfolding atoi
atoi_digits [] h e = ground arith
atoi_digits (c ∷ s) h e =
    let minus : (c == b'-') ≡ false = ground (arith, h.0) in
    let plus : (c == b'+') ≡ false = ground (arith, h.0) in rw (minus, plus) refl

-- Reading the decimal text of a 64-bit `int` gives that `int` back.
pub atoi-itoa : (z : ℤ) → pos_part z ≤ int_max → neg_part z ≤ int_max + 1 → atoi (itoa z) ≡ some z
unfolding itoa atoi minus
atoi-itoa (ℤ.pos n) h k =
    rw
      (
        atoi_digits (itoa_nat n) (itoa_nat-IsDigit n) (itoa_nat-nonempty n),
        magnitude-itoa_nat int_max n h,
      )
      refl
atoi-itoa (ℤ.negsuc n) h k = rw (magnitude-itoa_nat (int_max + 1) (suc n) k, atoi) refl
