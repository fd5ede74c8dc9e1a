-- ===== src/Prelude/Text.antt =====
-- Go strings: sequences of bytes. A literal of the source is written `str "…"`.
use Prim.Native.Nat.{ℕ, zero, suc, ◌+◌, ◌/◌, ◌%◌}
use Prim.Native.Char.{code}
use Prim.Native.String.{String}
use mathlib.Core.Path.{◌≡◌, refl}
use mathlib.Core.Logic.{◌↔◌}
use mathlib.Core.Bool.{Bool, true, false, ◌&&◌}
use mathlib.Core.Bool.{◌||◌}
use mathlib.Core.List.{List, [], ◌∷◌, ◌++◌}
use native.Mathlib.Omega.{arith}
use gitfusion.Prelude.Tests.{ltb, ◌==◌ as eq_nat, ==_iff, if◌then◌else◌}
use gitfusion.Prelude.Int.{ℤ, pos, negsuc}

abbrev pub GoString : Type 0
GoString = List ℕ

-- The bytes of an ASCII literal.
abbrev pub str : String → GoString
str String.[] = []
str (String.◌∷◌ c s) = code c ∷ str s

unfoldable pub eq_str : GoString → GoString → Bool
eq_str [] [] = true
eq_str [] (y ∷ ys) = false
eq_str (x ∷ xs) [] = false
eq_str (x ∷ xs) (y ∷ ys) = eq_nat x y && eq_str xs ys

pub eq_str_iff : (s t : GoString) → (eq_str s t ≡ true) ↔ (s ≡ t)
unfolding eq_str
eq_str_iff [] [] = ground arith
eq_str_iff [] (y ∷ ys) = ground arith
eq_str_iff (x ∷ xs) [] = ground arith
eq_str_iff (x ∷ xs) (y ∷ ys) = ground (arith, eq_str_iff xs ys)

pub eq_str_refl : (s : GoString) → eq_str s s ≡ true
eq_str_refl s = (eq_str_iff s s).1 refl

-- Equality of Go values that the program compares by `==`.
pub record Eq {ℓ} (T : Type ℓ) : Type ℓ where
  pub beq : T → T → Bool
  pub beq_iff : (x y : T) → (beq x y ≡ true) ↔ (x ≡ y)

infix 50 ◌==◌
abbrev pub ◌==◌ {ℓ} : {T : Type ℓ} ⦃test : Eq T⦄ → T → T → Bool
◌==◌ ⦃test⦄ = test.beq

instance abbrev pub nat_eq : Eq ℕ
nat_eq = record { beq = eq_nat; beq_iff = ==_iff }

abbrev pub eq_int : ℤ → ℤ → Bool
eq_int (pos a) (pos b) = eq_nat a b
eq_int (pos a) (negsuc b) = false
eq_int (negsuc a) (pos b) = false
eq_int (negsuc a) (negsuc b) = eq_nat a b

pub eq_int_iff : (a b : ℤ) → (eq_int a b ≡ true) ↔ (a ≡ b)
eq_int_iff a b = ground arith

instance abbrev pub int_eq : Eq ℤ
int_eq = record { beq = eq_int; beq_iff = eq_int_iff }

instance abbrev pub string_eq : Eq GoString
string_eq = record { beq = eq_str; beq_iff = eq_str_iff }

-- Is the string among those of the list?
abbrev pub contains : List GoString → GoString → Bool
contains [] s = false
contains (t ∷ ts) s = eq_str s t || contains ts s

-- The test `s != ""`.
abbrev pub nonempty : GoString → Bool
nonempty [] = false
nonempty (c ∷ s) = true

-- strconv.Itoa: the decimal digits, the last one first in the recursion.
unfoldable pub digits : ℕ → ℕ → GoString
digits zero n = []
digits (suc fuel) n =
    let rest = digits fuel (n / 10) in
    if ltb n 10 then (b'0' + n) ∷ [] else rest ++ (b'0' + n % 10) ∷ []

unfoldable pub itoa_nat : ℕ → GoString
unfolding digits
itoa_nat n = digits (suc n) n

unfoldable pub itoa : ℤ → GoString
unfolding itoa_nat
itoa (pos n) = itoa_nat n
itoa (negsuc n) = b'-' ∷ itoa_nat (suc n)

itoa_tests :
    (itoa (pos 2026) ≡ str "2026") × (itoa (negsuc 41) ≡ str "-42") × (itoa (pos 0) ≡ str "0")
unfolding itoa
itoa_tests = (refl, refl, refl)
