-- ===== src/Base/Bits.antt =====
-- The bit operations of C on disjoint fields and on masks, as arithmetic.
use Prim.Native.Nat.{ℕ, zero, suc, ◌+◌, ◌-◌, ◌*◌, ◌/◌, ◌%◌, ◌^◌, ◌≤◌, ◌<◌, min, max}
use Prim.Native.Nat.{bit_and, bit_or, digits, bitwise, bit_and-bitwise, bit_or-bitwise}
use mathlib.Core.Path.{◌≡◌, refl, ap}
use native.Mathlib.Nat.{pow-suc, one-le-pow}
use native.Mathlib.Omega.{arith}

-- Any two amounts of fuel that cover the first number give the same digits.
module _ (z : ℕ → ℕ) (f : ℕ → ℕ → ℕ) where
  fuel_free : (n : ℕ) (a b m : ℕ) → a ≤ n → a ≤ m → digits z f n a b ≡ digits z f m a b
  fuel_free zero zero b zero _ _ = refl
  fuel_free zero zero b (suc m) _ _ = refl
  fuel_free (suc n) zero b zero _ _ = refl
  fuel_free (suc n) zero b (suc m) _ _ = refl
  fuel_free zero (suc a) b m le _ = absurd (omega arith)
  fuel_free (suc n) (suc a) b zero _ le = absurd (omega arith)
  fuel_free (suc n) (suc a) b (suc m) p q =
      ap (λ t. t * 2 + f (suc a % 2) (b % 2))
        (fuel_free n (suc a / 2) (b / 2) m (omega arith) (omega arith))

  lowest_digit :
      (a b : ℕ)
      → bitwise z f (suc a) b ≡ bitwise z f (suc a / 2) (b / 2) * 2 + f (suc a % 2) (b % 2)
  lowest_digit a b =
      ap (λ t. t * 2 + f (suc a % 2) (b % 2))
        (fuel_free a (suc a / 2) (b / 2) (suc a / 2) (omega arith) (omega arith))

pub or_digit : (a b : ℕ) → bit_or a b ≡ bit_or (a / 2) (b / 2) * 2 + max (a % 2) (b % 2)
or_digit zero b = simp bit_or-bitwise (omega arith)
or_digit (suc a) b = simp bit_or-bitwise (lowest_digit (λ y. y) max a b)

pub and_digit : (a b : ℕ) → bit_and a b ≡ bit_and (a / 2) (b / 2) * 2 + min (a % 2) (b % 2)
and_digit zero b = simp bit_and-bitwise (omega arith)
and_digit (suc a) b = simp bit_and-bitwise (lowest_digit (λ _. 0) min a b)

-- Recursion on a bound of the number, halved at each step.
pub or_zero_below : (n a : ℕ) → a ≤ n → bit_or a 0 ≡ a
or_zero_below n zero h = refl
or_zero_below zero (suc a) h = absurd (omega arith)
or_zero_below (suc n) (suc a) h =
    omega (arith, or_digit (suc a) 0, or_zero_below n (suc a / 2) (omega arith))

zero-or : (b : ℕ) → bit_or 0 b ≡ b
zero-or b = bit_or-bitwise 0 b

pub and_zero_below : (n a : ℕ) → a ≤ n → bit_and a 0 ≡ 0
and_zero_below n zero h = refl
and_zero_below zero (suc a) h = absurd (omega arith)
and_zero_below (suc n) (suc a) h =
    omega (arith, and_digit (suc a) 0, and_zero_below n (suc a / 2) (omega arith))

double_shift : (q k : ℕ) → q * 2 ^ suc k ≡ 2 * (q * 2 ^ k)
double_shift q k = omega (arith, ap (λ (t : ℕ). q * t) (pow-suc 2 k))

-- `(q << k) | r` and `r | (q << k)` are sums when `r` fits `k` bits.
pub or_high : (k q r : ℕ) → r < 2 ^ k → bit_or (q * 2 ^ k) r ≡ q * 2 ^ k + r
or_high zero q r h = ground (arith, or_zero_below q q)
or_high (suc k) q r h = ground (
  arith,
  double_shift q k,
  or_digit (q * 2 ^ suc k) r,
  or_high k q (r / 2) (omega (arith, pow-suc 2 k)),
)

pub or_low : (k q r : ℕ) → r < 2 ^ k → bit_or r (q * 2 ^ k) ≡ r + q * 2 ^ k
or_low zero q r h = ground (arith, zero-or q)
or_low (suc k) q r h = ground (
  arith,
  double_shift q k,
  or_digit r (q * 2 ^ suc k),
  or_low k q (r / 2) (omega (arith, pow-suc 2 k)),
)

and_ones : (k q r : ℕ) → r < 2 ^ k → bit_and (q * 2 ^ k + r) (2 ^ k - 1) ≡ r
and_ones zero q r h = ground (arith, and_zero_below q q)
and_ones (suc k) q r h = ground (
  arith,
  double_shift q k,
  pow-suc 2 k,
  one-le-pow k 2,
  and_digit (q * 2 ^ suc k + r) (2 ^ suc k - 1),
  and_ones k q (r / 2) (omega (arith, pow-suc 2 k)),
)

-- A mask of the `k` lowest bits is the remainder by `2 ^ k`.
pub and_mask : (k a : ℕ) → bit_and a (2 ^ k - 1) ≡ a % 2 ^ k
and_mask k a = ground (arith, one-le-pow k 2, and_ones k (a / 2 ^ k) (a % 2 ^ k))

-- `x & ~3` on 64 bits rounds down to a multiple of 4.
pub and_not_three : (x : ℕ) → x < 2 ^ 64 → bit_and x (2 ^ 64 - 4) ≡ x / 4 * 4
and_not_three x h =
    let first : bit_and x (2 ^ 64 - 4) ≡ bit_and (x / 2) (2 ^ 63 - 2) * 2 + min (x % 2) 0 =
      and_digit x (2 ^ 64 - 4) in
    let second : bit_and (x / 2) (2 ^ 63 - 2)
        ≡ bit_and (x / 2 / 2) (2 ^ 62 - 1) * 2 + min (x / 2 % 2) 0 =
      and_digit (x / 2) (2 ^ 63 - 2) in
    omega (arith, first, second, and_mask 62 (x / 2 / 2))
