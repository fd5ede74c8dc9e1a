-- ===== src/Prelude/Int.antt =====
-- Signed integers over the native numbers, under the library's names, and Go's 64-bit `int`: a
-- value is an integer, and sums and products of two values wrap around at 2^63.
use Prim.Native.Nat.{ℕ, suc, ◌+◌, ◌-◌, ◌*◌, ◌%◌, ◌≤◌}
use mathlib.Core.Path.{◌≡◌, refl}
use mathlib.Core.Bool.{Bool}
use native.Mathlib.Omega.{arith}
use gitfusion.Prelude.Tests.{ltb, leb, if◌then◌else◌}

-- `negsuc n` is -(n + 1).
pub data ℤ : Type 0 where
  pos : ℕ → ℤ
  negsuc : ℕ → ℤ

abbrev pub pos_part : ℤ → ℕ
pos_part (pos n) = n
pos_part (negsuc n) = 0

abbrev pub neg_part : ℤ → ℕ
neg_part (pos n) = 0
neg_part (negsuc n) = suc n

-- a - b, as an integer.
abbrev pub sub_ℕ : ℕ → ℕ → ℤ
sub_ℕ a b = if leb b a then pos (a - b) else negsuc (b - a - 1)

infixl 65 ◌+ℤ◌ ◌-ℤ◌
infixl 70 ◌*ℤ◌
infix 50 ◌≤ℤ◌
unfoldable pub ◌+ℤ◌ : ℤ → ℤ → ℤ
a +ℤ b = sub_ℕ (pos_part a + pos_part b) (neg_part a + neg_part b)

unfoldable pub ◌-ℤ◌ : ℤ → ℤ → ℤ
a -ℤ b = sub_ℕ (pos_part a + neg_part b) (neg_part a + pos_part b)

unfoldable pub ◌*ℤ◌ : ℤ → ℤ → ℤ
a *ℤ b =
    sub_ℕ (pos_part a * pos_part b + neg_part a * neg_part b)
      (pos_part a * neg_part b + neg_part a * pos_part b)

abbrev pub ◌≤ℤ◌ : ℤ → ℤ → Type 0
a ≤ℤ b = pos_part a + neg_part b ≤ pos_part b + neg_part a

abbrev pub ltb_ℤ : ℤ → ℤ → Bool
ltb_ℤ a b = ltb (pos_part a + neg_part b) (pos_part b + neg_part a)

abbrev pub leb_ℤ : ℤ → ℤ → Bool
leb_ℤ a b = leb (pos_part a + neg_part b) (pos_part b + neg_part a)

abbrev pub int_max : ℕ
int_max = 9223372036854775807

abbrev pub int_modulus : ℕ
int_modulus = 18446744073709551616

-- The integer that a bit pattern stands for, in two's complement.
unfoldable pub of_bits : ℕ → ℤ
of_bits n = if leb n int_max then pos n else negsuc (int_modulus - n - 1)

-- The value that is left of an integer in 64 bits.
unfoldable pub wrap : ℤ → ℤ
unfolding of_bits
wrap (pos n) = of_bits (n % int_modulus)
wrap (negsuc n) = of_bits (int_modulus - n % int_modulus - 1)

unfoldable pub go_add : ℤ → ℤ → ℤ
unfolding wrap ◌+ℤ◌
go_add a b = wrap (a +ℤ b)

unfoldable pub go_sub : ℤ → ℤ → ℤ
unfolding wrap ◌-ℤ◌
go_sub a b = wrap (a -ℤ b)

unfoldable pub go_mul : ℤ → ℤ → ℤ
unfolding wrap ◌*ℤ◌
go_mul a b = wrap (a *ℤ b)

pub wrap-pos : (n : ℕ) → n ≤ int_max → wrap (pos n) ≡ pos n
unfolding wrap
wrap-pos n h = ground arith

pub go_add-pos : (a b : ℕ) → a + b ≤ int_max → go_add (pos a) (pos b) ≡ pos (a + b)
unfolding go_add
go_add-pos a b h = ground arith

pub go_sub-pos : (a b : ℕ) → b ≤ a → a ≤ int_max → go_sub (pos a) (pos b) ≡ pos (a - b)
unfolding go_sub
go_sub-pos a b h k = ground arith

pub go_mul-pos : (a b : ℕ) → a * b ≤ int_max → go_mul (pos a) (pos b) ≡ pos (a * b)
unfolding go_mul
go_mul-pos a b h = ground arith

mul_wraps : go_mul (pos 4611686018427387904) (pos 100) ≡ pos 0
unfolding go_mul
mul_wraps = refl

sub_wraps : go_sub (negsuc int_max) (pos 1) ≡ pos int_max
unfolding go_sub
sub_wraps = refl
