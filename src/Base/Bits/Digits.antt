-- ===== src/Base/Bits/Digits.antt =====
-- `&` and `|` by their lowest binary digit, from the recursion that the native operations stand for.
use Prim.Native.Nat.{ℕ, zero, suc, ◌+◌, ◌*◌, ◌/◌, ◌%◌, ◌≤◌, min, max, bit_and, bit_or}
use Prim.Native.Nat.{digits, bit_and-bitwise, bit_or-bitwise}
use mathlib.Core.Path.{◌≡◌, refl}
use native.Mathlib.Omega.{arith}

module _ (rest : ℕ → ℕ) (join : ℕ → ℕ → ℕ) where
  -- Any two amounts of fuel that cover the first operand agree.
  same_digits : (a m n b : ℕ) → a ≤ m → a ≤ n → digits rest join m a b ≡ digits rest join n a b
  same_digits zero zero zero b hm hn = refl
  same_digits zero zero (suc n) b hm hn = refl
  same_digits zero (suc m) zero b hm hn = refl
  same_digits zero (suc m) (suc n) b hm hn = refl
  same_digits (suc a) zero n b hm hn = elim hm [ ]
  same_digits (suc a) (suc m) zero b hm hn = elim hn [ ]
  same_digits (suc a) (suc m) (suc n) b hm hn =
      rw (same_digits (suc a / 2) m n (b / 2) (omega arith) (omega arith))

pub and_step : (a b : ℕ) → bit_and a b ≡ bit_and (a / 2) (b / 2) * 2 + min (a % 2) (b % 2)
and_step zero b = omega (arith, bit_and-bitwise 0 b, bit_and-bitwise 0 (b / 2))
and_step (suc a) b = omega (
  arith,
  bit_and-bitwise (suc a) b,
  bit_and-bitwise (suc a / 2) (b / 2),
  same_digits (λ b. zero) min (suc a / 2) a (suc a / 2) (b / 2) (omega arith) (omega arith),
)

pub or_step : (a b : ℕ) → bit_or a b ≡ bit_or (a / 2) (b / 2) * 2 + max (a % 2) (b % 2)
or_step zero b = omega (arith, bit_or-bitwise 0 b, bit_or-bitwise 0 (b / 2))
or_step (suc a) b = omega (
  arith,
  bit_or-bitwise (suc a) b,
  bit_or-bitwise (suc a / 2) (b / 2),
  same_digits (λ b. b) max (suc a / 2) a (suc a / 2) (b / 2) (omega arith) (omega arith),
)

pub zero_or : (b : ℕ) → bit_or 0 b ≡ b
zero_or b = bit_or-bitwise 0 b
