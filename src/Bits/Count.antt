-- ===== src/Bits/Count.antt =====
-- The counts of zeros find the lowest and the highest bit.
use native.Mathlib.Nat.{pow-suc}
use flower_exchange.Base.{
  ℕ, zero, suc, ◌-◌, ◌/◌, ◌%◌, ◌^◌, ◌<◌, ◌≡◌, ◌≢◌, arith, false, Bool-cases, inl, inr, ◌==◌,
}
use flower_exchange.Bits.{test_bit, trailing_zeros, leading_zeros}
use flower_exchange.Bits.Laws.{test_bit-le-one}

-- A word of `n` bits that is not 0 has one.
pub some_bit : (n w : ℕ) → w < 2 ^ n → w ≢ 0 → (k : ℕ) × (k < n) × (test_bit w k ≡ 1)
unfolding test_bit
some_bit zero w h p = absurd (p (omega arith))
some_bit (suc n) w h p = elim (Bool-cases (w % 2 == 1)) [
  | inl odd ↦ (0, omega arith, ground arith)
  | inr even ↦
      let (k, l, e) = some_bit n (w / 2) (omega (arith, pow-suc 2 n)) (ground arith) in
      (suc k, omega arith, e)
]

-- A bit other than the lowest is one of the halved word.
bit_above :
    (n w j : ℕ)
    → (w % 2 == 1) ≡ false
    → j < suc n
    → test_bit w j ≡ 1
    → (j - 1 < n) × (test_bit (w / 2) (j - 1) ≡ 1)
unfolding test_bit
bit_above n w zero even h p = absurd (ground arith)
bit_above n w (suc j) even h p = let back : suc j - 1 ≡ j = omega arith in (omega arith, rw back p)

clear_below :
    (m w k : ℕ)
    → (w % 2 == 1) ≡ false
    → ((i : ℕ) → i < m → test_bit (w / 2) i ≡ 0)
    → k < suc m
    → test_bit w k ≡ 0
unfolding test_bit
clear_below m w zero even low h = ground arith
clear_below m w (suc k) even low h = low k (omega arith)

-- The count of trailing zeros is the position of the lowest bit.
pub trailing_zeros_lem :
    (n w j : ℕ)
    → j < n
    → test_bit w j ≡ 1
    → (trailing_zeros n w < n)
      × (test_bit w (trailing_zeros n w) ≡ 1)
      × ((k : ℕ) → k < trailing_zeros n w → test_bit w k ≡ 0)
unfolding trailing_zeros test_bit
trailing_zeros_lem zero w j h p = absurd (omega arith)
trailing_zeros_lem (suc n) w j h p = elim (Bool-cases (w % 2 == 1)) [
  | inl odd ↦ rw odd (omega arith, ground arith, λ k l. absurd (omega arith))
  | inr even ↦
      let (l, e) = bit_above n w j even h p in
      let (lt, hit, low) = trailing_zeros_lem n (w / 2) (j - 1) l e in
      rw even (omega arith, hit, λ k m. clear_below _ w k even low m)
]

-- The count of leading zeros is the distance of the highest bit from the top.
pub leading_zeros_lem :
    (n w j : ℕ)
    → j < n
    → test_bit w j ≡ 1
    → (leading_zeros n w < n)
      × (test_bit w (n - 1 - leading_zeros n w) ≡ 1)
      × ((k : ℕ) → n - 1 - leading_zeros n w < k → k < n → test_bit w k ≡ 0)
unfolding leading_zeros
leading_zeros_lem zero w j h p = absurd (omega arith)
leading_zeros_lem (suc n) w j h p = elim (Bool-cases (test_bit w n == 1)) [
  | inl top ↦ rw top (omega arith, ground arith, λ k l m. absurd (omega arith))
  | inr clear ↦
      let below : j < n = ground arith in
      let (lt, hit, high) = leading_zeros_lem n w j below p in
      let top : test_bit w n ≡ 0 = ground (arith, test_bit-le-one w n) in
      rw clear
        (omega arith, (rw (shift n (leading_zeros n w)) hit), λ k l m. ground (arith, high k))
]
  where
    shift : (n z : ℕ) → suc n - 1 - suc z ≡ n - 1 - z
    shift n z = omega arith
