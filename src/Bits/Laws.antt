-- ===== src/Bits/Laws.antt =====
-- The bits of a union, of an intersection, of a power of two, of a complement and of masks.
use native.Mathlib.Nat.{pow-suc, one-le-pow}
use flower_exchange.Base.{
  ℕ, zero, suc, ◌-◌, ◌/◌, ◌^◌, ◌≤◌, ◌<◌, min, max, bit_and, bit_or, ◌≡◌, refl, arith, ◌==◌, ltb,
  if◌then◌else◌,
}
use flower_exchange.Bits.{test_bit}
use flower_exchange.Bits.Step.{bit_or_step, bit_and_step}

pub test_bit-le-one : (w k : ℕ) → test_bit w k ≤ 1
unfolding test_bit
test_bit-le-one w zero = omega arith
test_bit-le-one w (suc k) = test_bit-le-one (w / 2) k

pub test_bit-bit_or : (a b k : ℕ) → test_bit (bit_or a b) k ≡ max (test_bit a k) (test_bit b k)
unfolding test_bit
test_bit-bit_or a b zero = omega (arith, bit_or_step a b)
test_bit-bit_or a b (suc k) =
    let half : bit_or a b / 2 ≡ bit_or (a / 2) (b / 2) = omega (arith, bit_or_step a b) in
    rw half (test_bit-bit_or (a / 2) (b / 2) k)

pub test_bit-bit_and : (a b k : ℕ) → test_bit (bit_and a b) k ≡ min (test_bit a k) (test_bit b k)
unfolding test_bit
test_bit-bit_and a b zero = omega (arith, bit_and_step a b)
test_bit-bit_and a b (suc k) =
    let half : bit_and a b / 2 ≡ bit_and (a / 2) (b / 2) = omega (arith, bit_and_step a b) in
    rw half (test_bit-bit_and (a / 2) (b / 2) k)

pub test_bit-zero : (k : ℕ) → test_bit 0 k ≡ 0
unfolding test_bit
test_bit-zero zero = refl
test_bit-zero (suc k) = test_bit-zero k

-- `1 << n`.
pub test_bit-pow : (n k : ℕ) → test_bit (2 ^ n) k ≡ (if n == k then 1 else 0)
unfolding test_bit
test_bit-pow zero zero = refl
test_bit-pow zero (suc k) = ground (arith, test_bit-zero k)
test_bit-pow (suc n) zero = ground (arith, pow-suc 2 n)
test_bit-pow (suc n) (suc k) =
    let half : 2 ^ suc n / 2 ≡ 2 ^ n = omega (arith, pow-suc 2 n) in
    rw half (ground (arith, test_bit-pow n k))

-- A complement in `n` bits flips each of them.
pub test_bit-complement :
    (n w k : ℕ) → w < 2 ^ n → k < n → test_bit (2 ^ n - 1 - w) k ≡ 1 - test_bit w k
unfolding test_bit
test_bit-complement zero w k h l = absurd (omega arith)
test_bit-complement (suc n) w zero h l = omega (arith, pow-suc 2 n)
test_bit-complement (suc n) w (suc k) h l =
    let half : (2 ^ suc n - 1 - w) / 2 ≡ 2 ^ n - 1 - w / 2 = omega (arith, pow-suc 2 n) in
    rw half (test_bit-complement n (w / 2) k (omega (arith, pow-suc 2 n)) (omega arith))

-- `(1 << n) - 1`.
pub test_bit-low_mask : (n k : ℕ) → test_bit (2 ^ n - 1) k ≡ (if ltb k n then 1 else 0)
unfolding test_bit
test_bit-low_mask zero k = ground (arith, test_bit-zero k)
test_bit-low_mask (suc n) zero = ground (arith, pow-suc 2 n, one-le-pow n 2)
test_bit-low_mask (suc n) (suc k) =
    let half : (2 ^ suc n - 1) / 2 ≡ 2 ^ n - 1 = omega (arith, pow-suc 2 n, one-le-pow n 2) in
    rw half (ground (arith, test_bit-low_mask n k))

-- A word that has no bit among `n` is 0, if it fits `n` bits.
pub eq_zero_of_bits : (n w : ℕ) → w < 2 ^ n → ((k : ℕ) → k < n → test_bit w k ≡ 0) → w ≡ 0
unfolding test_bit
eq_zero_of_bits zero w h bits = omega arith
eq_zero_of_bits (suc n) w h bits =
    let rest : w / 2 ≡ 0 =
      eq_zero_of_bits n (w / 2) (omega (arith, pow-suc 2 n)) (λ k l. bits (suc k) (omega arith)) in
    omega (arith, bits 0 (omega arith))

pub bit_or-lt : (n a b : ℕ) → a < 2 ^ n → b < 2 ^ n → bit_or a b < 2 ^ n
bit_or-lt zero a b p q =
    let ea : a ≡ 0 = omega arith in let eb : b ≡ 0 = omega arith in rw (ea, eb) (omega arith)
bit_or-lt (suc n) a b p q = omega (
  arith,
  bit_or_step a b,
  pow-suc 2 n,
  bit_or-lt n (a / 2) (b / 2) (omega (arith, pow-suc 2 n)) (omega (arith, pow-suc 2 n)),
)

pub bit_and-lt : (n a b : ℕ) → a < 2 ^ n → b < 2 ^ n → bit_and a b < 2 ^ n
bit_and-lt zero a b p q =
    let ea : a ≡ 0 = omega arith in let eb : b ≡ 0 = omega arith in rw (ea, eb) (omega arith)
bit_and-lt (suc n) a b p q = omega (
  arith,
  bit_and_step a b,
  pow-suc 2 n,
  bit_and-lt n (a / 2) (b / 2) (omega (arith, pow-suc 2 n)) (omega (arith, pow-suc 2 n)),
)

pub pow-lt : (k n : ℕ) → k < n → 2 ^ k < 2 ^ n
pow-lt k zero h = absurd (omega arith)
pow-lt zero (suc n) h = omega (arith, pow-suc 2 n, one-le-pow n 2)
pow-lt (suc k) (suc n) h = omega (arith, pow-suc 2 k, pow-suc 2 n, pow-lt k n (omega arith))
