-- ===== src/Base/Bits.antt =====
-- The operators `&` and `|` on non-negative integers, as arithmetic. The source writes `<<` and
-- `>>` by constants, which are `shl` and `shr` here; all its operands stay below 2 ^ 31.
mod Digits
use Digits.{and_step, or_step, zero_or}
use Prim.Native.Nat.{ℕ, zero, suc, ◌+◌, ◌-◌, ◌*◌, ◌/◌, ◌%◌, ◌^◌, ◌≤◌, ◌<◌, bit_and, bit_or}
use mathlib.Core.Path.{◌≡◌, refl, ap}
use native.Mathlib.Nat.{pow-suc, one-le-pow, div-add-mod}
use native.Mathlib.Omega.{arith}

abbrev pub shl : ℕ → ℕ → ℕ
shl x k = x * 2 ^ k

abbrev pub shr : ℕ → ℕ → ℕ
shr x k = x / 2 ^ k

-- A bound on the argument serves as fuel for the descent by halves.
and_zero : (n a : ℕ) → a ≤ n → bit_and a 0 ≡ 0
and_zero n zero h = refl
and_zero zero (suc a) h = absurd (omega arith)
and_zero (suc n) (suc a) h = omega (arith, and_step (suc a) 0, and_zero n (suc a / 2) (omega arith))

or_zero : (n a : ℕ) → a ≤ n → bit_or a 0 ≡ a
or_zero n zero h = refl
or_zero zero (suc a) h = absurd (omega arith)
or_zero (suc n) (suc a) h = omega (arith, or_step (suc a) 0, or_zero n (suc a / 2) (omega arith))

pub bit_and-zero : (a : ℕ) → bit_and a 0 ≡ 0
bit_and-zero a = and_zero a a (omega arith)

pub bit_or-zero : (a : ℕ) → bit_or a 0 ≡ a
bit_or-zero a = or_zero a a (omega arith)

double_pow : (q k : ℕ) → q * 2 ^ suc k ≡ 2 * (q * 2 ^ k)
double_pow q k = omega (arith, ap (λ (t : ℕ). q * t) (pow-suc 2 k))

-- A mask that starts at bit `k` looks at what stands above that bit.
pub bit_and-shifted :
    (k q r m : ℕ) → r < 2 ^ k → bit_and (q * 2 ^ k + r) (m * 2 ^ k) ≡ bit_and q m * 2 ^ k
bit_and-shifted zero q zero m h =
    omega (arith, ap (λ (t : ℕ). bit_and t (m * 1)) (plain q), ap (bit_and q) (times_one m))
  where
    plain : (q : ℕ) → q * 1 + 0 ≡ q
    plain q = omega arith

    times_one : (m : ℕ) → m * 1 ≡ m
    times_one m = omega arith
bit_and-shifted zero q (suc r) m h = absurd (omega arith)
bit_and-shifted (suc k) q r m h = ground (
  arith,
  and_step (q * 2 ^ suc k + r) (m * 2 ^ suc k),
  double_pow q k,
  double_pow m k,
  double_pow (bit_and q m) k,
  bit_and-shifted k q (r / 2) m (omega (arith, pow-suc 2 k)),
)

-- The low field of two.
pub bit_and-low : (k q r : ℕ) → r < 2 ^ k → bit_and (q * 2 ^ k + r) (2 ^ k - 1) ≡ r
bit_and-low zero q r h = omega (arith, bit_and-zero (q * 1 + r))
bit_and-low (suc k) q r h = ground (
  arith,
  and_step (q * 2 ^ suc k + r) (2 ^ suc k - 1),
  double_pow q k,
  pow-suc 2 k,
  one-le-pow k 2,
  bit_and-low k q (r / 2) (omega (arith, pow-suc 2 k)),
)

-- `a & (2 ^ k - 1)`.
pub bit_and-mask : (k a : ℕ) → bit_and a (2 ^ k - 1) ≡ a % 2 ^ k
bit_and-mask k a = ground (
  arith,
  one-le-pow k 2,
  bit_and-low k (a / 2 ^ k) (a % 2 ^ k) (omega (arith, one-le-pow k 2)),
  div-add-mod a (2 ^ k),
)

-- `(q << k) | r` for an `r` of `k` bits.
pub bit_or-fields : (k q r : ℕ) → r < 2 ^ k → bit_or (q * 2 ^ k) r ≡ q * 2 ^ k + r
bit_or-fields zero q r h = ground (arith, bit_or-zero q)
bit_or-fields (suc k) q r h = ground (
  arith,
  or_step (q * 2 ^ suc k) r,
  double_pow q k,
  pow-suc 2 k,
  bit_or-fields k q (r / 2) (omega (arith, pow-suc 2 k)),
)

-- The same with the fields in the other order.
pub bit_or-fields_flip : (k q r : ℕ) → r < 2 ^ k → bit_or r (q * 2 ^ k) ≡ q * 2 ^ k + r
bit_or-fields_flip zero q zero h = omega (arith, zero_or (q * 1))
bit_or-fields_flip zero q (suc r) h = absurd (omega arith)
bit_or-fields_flip (suc k) q r h = ground (
  arith,
  or_step r (q * 2 ^ suc k),
  double_pow q k,
  pow-suc 2 k,
  bit_or-fields_flip k q (r / 2) (omega (arith, pow-suc 2 k)),
)

-- `a & (1 << k)`.
pub bit_and-bit : (k a : ℕ) → bit_and a (2 ^ k) ≡ a / 2 ^ k % 2 * 2 ^ k
bit_and-bit k a = ground (
  arith,
  one-le-pow k 2,
  div-add-mod a (2 ^ k),
  bit_and-shifted k (a / 2 ^ k) (a % 2 ^ k) 1 (omega (arith, one-le-pow k 2)),
  bit_and-mask 1 (a / 2 ^ k),
)
