-- ===== src/Prelude/Decimal.antt =====
-- Decimal numerals: `strconv.Itoa` gives different texts for different integers, made of digits and
-- a leading minus sign only.
use Prim.Native.Nat.{ℕ, zero, suc, ◌+◌, ◌-◌, ◌*◌, ◌/◌, ◌%◌, ◌≤◌, ◌<◌}
use mathlib.Core.Path.{◌≡◌, refl, ap, sym, ◌∙◌}
use mathlib.Core.Logic.{inl, inr}
use mathlib.Core.List.{[], ◌∷◌, ◌++◌}
use native.Mathlib.Omega.{arith}
use gitfusion.Prelude.Tests.{◌==◌ as eq_nat, ltb, if◌then◌else◌, Bool-cases}
use gitfusion.Prelude.Lists.{All}
use gitfusion.Prelude.Int.{ℤ, pos, negsuc}
use gitfusion.Prelude.Text.{GoString, digits, itoa_nat, itoa}

abbrev pub IsDigit : ℕ → Type 0
IsDigit c = (b'0' ≤ c) × (c ≤ b'9')

All-append : (s t : GoString) → All IsDigit s → All IsDigit t → All IsDigit (s ++ t)
All-append [] t h k = k
All-append (c ∷ s) t h k = (h.0, All-append s t h.1 k)

pub digits-IsDigit : (fuel n : ℕ) → All IsDigit (digits fuel n)
unfolding digits
digits-IsDigit zero n = tt
digits-IsDigit (suc fuel) n = elim (Bool-cases (ltb n 10)) [
  | inl small ↦ rw small ((omega arith, ground arith), tt)
  | inr large ↦ rw large (
      All-append (digits fuel (n / 10)) _ (digits-IsDigit fuel (n / 10))
        ((omega arith, omega arith), tt))
]

-- The number that a text of digits stands for.
unfoldable pub value : ℕ → GoString → ℕ
value acc [] = acc
value acc (c ∷ s) = value (acc * 10 + (c - b'0')) s

value-append : (acc : ℕ) (s t : GoString) → value acc (s ++ t) ≡ value (value acc s) t
unfolding value
value-append acc [] t = refl
value-append acc (c ∷ s) t = value-append (acc * 10 + (c - b'0')) s t

pub value-digits : (fuel n : ℕ) → n < fuel → value 0 (digits fuel n) ≡ n
unfolding digits value
value-digits zero n h = absurd (omega arith)
value-digits (suc fuel) n h = elim (Bool-cases (ltb n 10)) [
  | inl small ↦ rw small (omega arith)
  | inr large ↦
      rw
        (
          large,
          value-append 0 (digits fuel (n / 10)) ((b'0' + n % 10) ∷ []),
          value-digits fuel (n / 10) (ground arith),
        )
        (omega arith)
]

itoa_nat-injective : (m n : ℕ) → itoa_nat m ≡ itoa_nat n → m ≡ n
unfolding itoa_nat
itoa_nat-injective m n e =
    sym (value-digits (suc m) m (omega arith))
    ∙ ap (value 0) e
    ∙ value-digits (suc n) n (omega arith)

no_minus : (s t : GoString) → All IsDigit s → s ≡ b'-' ∷ t → ⊥
no_minus [] t h e = ground arith
no_minus (c ∷ s) t h e = ground (arith, h.0)

pub itoa_injective : (m n : ℤ) → itoa m ≡ itoa n → m ≡ n
unfolding itoa
itoa_injective (pos m) (pos n) e = ap pos (itoa_nat-injective m n e)
itoa_injective (pos m) (negsuc n) e = absurd (no_minus (itoa_nat m) _ (digits-IsDigit (suc m) m) e)
itoa_injective (negsuc m) (pos n) e =
    absurd (no_minus (itoa_nat n) _ (digits-IsDigit (suc n) n) (sym e))
itoa_injective (negsuc m) (negsuc n) e = ground (arith, itoa_nat-injective (suc m) (suc n))

-- How often a byte occurs in a text.
unfoldable pub count : ℕ → GoString → ℕ
count b [] = 0
count b (c ∷ s) = let rest = count b s in if eq_nat c b then suc rest else rest

pub count-append : (b : ℕ) (s t : GoString) → count b (s ++ t) ≡ count b s + count b t
unfolding count
count-append b [] t = omega arith
count-append b (c ∷ s) t = ground (arith, count-append b s t)

count-IsDigit : (b : ℕ) (s : GoString) → b'9' < b → All IsDigit s → count b s ≡ 0
unfolding count
count-IsDigit b [] h k = refl
count-IsDigit b (c ∷ s) h k = ground (arith, count-IsDigit b s h k.1, k.0)

-- A byte above '9' does not occur in a decimal numeral.
pub count-itoa : (b : ℕ) (n : ℤ) → b'9' < b → count b (itoa n) ≡ 0
unfolding itoa count
count-itoa b (pos n) h = count-IsDigit b (itoa_nat n) h (digits-IsDigit (suc n) n)
count-itoa b (negsuc n) h =
    ground (arith, count-IsDigit b (itoa_nat (suc n)) h (digits-IsDigit (suc (suc n)) (suc n)))
