-- ===== src/Base/BitSet.antt =====
-- A word as a set of bits: what `word & 1 << n` and `word | 1 << n` find and leave.
use Prim.Native.Nat.{ℕ, zero, suc, ◌*◌, ◌/◌, ◌%◌, ◌^◌, ◌<◌}
use Prim.Native.Nat.{bit_and, bit_or}
use mathlib.Core.Path.{◌≡◌, refl, ap}
use native.Mathlib.Nat.{pow-suc, one-le-pow}
use native.Mathlib.Omega.{arith}
use cromfs.Base.Tests.{◌==◌, if◌then◌else◌}
use cromfs.Base.Bits.{and_digit, or_digit, and_zero_below, or_zero_below}

-- Digit number `n` of `w` in base 2.
unfoldable pub digit : ℕ → ℕ → ℕ
digit zero w = w % 2
digit (suc n) w = digit n (w / 2)

pub digit_le : (n w : ℕ) → digit n w < 2
unfolding digit
digit_le zero w = omega arith
digit_le (suc n) w = digit_le n (w / 2)

pub digit_zero : (n : ℕ) → digit n 0 ≡ 0
unfolding digit
digit_zero zero = refl
digit_zero (suc n) = digit_zero n

pub bit_and-digit : (n w : ℕ) → bit_and w (2 ^ n) ≡ digit n w * 2 ^ n
unfolding digit
bit_and-digit zero w = omega (arith, and_digit w 1, and_zero_below (w / 2) (w / 2))
bit_and-digit (suc n) w =
    let halves : 2 ^ suc n / 2 ≡ 2 ^ n = omega (arith, pow-suc 2 n) in
    let even : 2 ^ suc n % 2 ≡ 0 = omega (arith, pow-suc 2 n) in
    let step : bit_and w (2 ^ suc n) ≡ bit_and (w / 2) (2 ^ n) * 2 =
      rw (and_digit w (2 ^ suc n), halves, even) (omega arith) in
    rw (step, bit_and-digit n (w / 2), pow-suc 2 n) (grind arith)

pub digit-bit_or : (m n w : ℕ) → digit m (bit_or w (2 ^ n)) ≡ (if m == n then 1 else digit m w)
unfolding digit
digit-bit_or zero zero w = ground (arith, or_digit w 1)
digit-bit_or (suc m) zero w =
    let halves : bit_or w 1 / 2 ≡ w / 2 =
      omega (arith, or_digit w 1, or_zero_below (w / 2) (w / 2)) in
    rw halves (ground arith)
digit-bit_or zero (suc n) w = ground (arith, or_digit w (2 ^ suc n), pow-suc 2 n)
digit-bit_or (suc m) (suc n) w =
    let halves : bit_or w (2 ^ suc n) / 2 ≡ bit_or (w / 2) (2 ^ n) =
      let e : 2 ^ suc n / 2 ≡ 2 ^ n = omega (arith, pow-suc 2 n) in
      omega (arith, or_digit w (2 ^ suc n), ap (bit_or (w / 2)) e) in
    rw halves (ground (arith, digit-bit_or m n (w / 2)))

pub bit_and_test : (n w : ℕ) → (bit_and w (2 ^ n) == 0) ≡ (digit n w == 0)
bit_and_test n w = test (digit n w) (digit_le n w) (bit_and-digit n w)
  where
    test : (d : ℕ) → d < 2 → bit_and w (2 ^ n) ≡ d * 2 ^ n → (bit_and w (2 ^ n) == 0) ≡ (d == 0)
    test zero h e = ground arith
    test (suc zero) h e = ground (arith, one-le-pow n 2)
    test (suc (suc d)) h e = absurd (omega arith)
