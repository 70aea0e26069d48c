-- ===== src/Bits/Step.antt =====
-- One equation for the lowest digit of each native bit operation.
use Prim.Native.Nat.{min, max, digits, bitwise, bit_and-bitwise, bit_or-bitwise}
use flower_exchange.Base.{
  ℕ, zero, suc, ◌+◌, ◌*◌, ◌/◌, ◌%◌, ◌≤◌, bit_and, bit_or, ◌≡◌, refl, ap, ◌∙◌, sym, arith, ◌==◌, inl,
  inr, Bool-cases,
}

-- `empty` is what the operation gives once the first number has no digit left.
module _ (empty : ℕ → ℕ) (op : ℕ → ℕ → ℕ) where
  one_more : (left x y : ℕ) → x ≤ left → digits empty op (suc left) x y ≡ digits empty op left x y
  one_more zero zero y h = refl
  one_more (suc left) zero y h = refl
  one_more zero (suc x) y h = absurd (omega arith)
  one_more (suc left) (suc x) y h =
      ap (λ r. r * 2 + op (suc x % 2) (y % 2)) (one_more left (suc x / 2) (y / 2) (omega arith))

  -- A count that is large enough does not matter.
  settled : (left x y : ℕ) → x ≤ left → digits empty op left x y ≡ bitwise empty op x y
  settled zero x y h = let none_left : x ≡ 0 = omega arith in rw none_left refl
  settled (suc left) x y h = elim (Bool-cases (x == suc left)) [
    | inl e ↦ let exact : x ≡ suc left = ground arith in rw exact refl
    | inr e ↦
        let spare : x ≤ left = ground arith in one_more left x y spare ∙ settled left x y spare
  ]

  lowest :
      ((y : ℕ) → empty y ≡ empty (y / 2) * 2 + op 0 (y % 2))
      → (x y : ℕ) → bitwise empty op x y ≡ bitwise empty op (x / 2) (y / 2) * 2 + op (x % 2) (y % 2)
  lowest at_end zero y = at_end y
  lowest at_end (suc x) y =
      ap (λ r. r * 2 + op (suc x % 2) (y % 2)) (settled x (suc x / 2) (y / 2) (omega arith))

pub bit_or_step : (x y : ℕ) → bit_or x y ≡ bit_or (x / 2) (y / 2) * 2 + max (x % 2) (y % 2)
bit_or_step x y =
    bit_or-bitwise x y
    ∙ lowest (λ b. b) max (λ b. omega arith) x y
    ∙ ap (λ r. r * 2 + max (x % 2) (y % 2)) (sym (bit_or-bitwise (x / 2) (y / 2)))

pub bit_and_step : (x y : ℕ) → bit_and x y ≡ bit_and (x / 2) (y / 2) * 2 + min (x % 2) (y % 2)
bit_and_step x y =
    bit_and-bitwise x y
    ∙ lowest (λ b. 0) min (λ b. omega arith) x y
    ∙ ap (λ r. r * 2 + min (x % 2) (y % 2)) (sym (bit_and-bitwise (x / 2) (y / 2)))
