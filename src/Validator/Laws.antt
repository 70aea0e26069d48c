-- ===== src/Validator/Laws.antt =====
-- `validate_order` accepts exactly the orders that meet all four conditions.
use flower_exchange.Base.{
  ℕ, ◌%◌, ◌≤◌, ◌≡◌, refl, ap, arith, inl, inr, false, not, ◌&&◌, ◌||◌, none, ◌==◌, Bool-cases, ℤ,
  pos, negsuc, ltb_ℤ, eqb_ℤ, ◌<◌,
}
use flower_exchange.Types.{
  InstrumentType, rose, lavender, lotus, tulip, orchid, count, instrument_code, Side, buy, sell,
  side_code,
}
use flower_exchange.Doubles.{Doubles}
use flower_exchange.Validator.{off_multiple, validate_order, IsValid}

pub listed_of_code :
    (k : InstrumentType)
    → (instrument_code k == instrument_code count) ≡ false
    → instrument_code k < 5
listed_of_code rose e = omega arith
listed_of_code lavender e = omega arith
listed_of_code lotus e = omega arith
listed_of_code tulip e = omega arith
listed_of_code orchid e = omega arith
listed_of_code count e = absurd (ground arith)

pub side_of_test :
    (side : ℤ)
    → (not (eqb_ℤ side (pos 1)) && not (eqb_ℤ side (pos 2))) ≡ false
    → (s : Side) × (side ≡ pos (side_code s))
side_of_test (pos n) e = elim (Bool-cases (n == 1)) [
  | inl f ↦ (buy, ap pos (ground arith))
  | inr f ↦ (sell, ap pos (ground arith))
]
side_of_test (negsuc n) e = absurd (ground arith)

pub size_of_test :
    (q : ℤ)
    → (off_multiple q || ltb_ℤ q (pos 10) || ltb_ℤ (pos 1000) q) ≡ false
    → (n : ℕ) × (q ≡ pos n) × (n % 10 ≡ 0) × (10 ≤ n) × (n ≤ 1000)
size_of_test (pos n) e = (n, refl, ground arith, ground arith, ground arith)
size_of_test (negsuc n) e = absurd (ground arith)

module _ (doubles : Doubles) where
  open doubles use {Double}

  -- An order that is accepted has a listed instrument, side 1 or 2, a quantity from 10 to 1000 that is
  -- a multiple of 10, and a finite price above 0.0 and not above 1000.0.
  pub validate_order-IsValid :
      (k : InstrumentType) (side : ℤ) (price : Double) (quantity : ℤ)
      → validate_order doubles k side price quantity ≡ none
      → IsValid doubles k side price quantity
  unfolding validate_order
  validate_order-IsValid k side price quantity accepted =
      elim (Bool-cases (instrument_code k == instrument_code count)) [
        | inl a ↦ absurd (ground arith)
        | inr a ↦ elim (Bool-cases (not (eqb_ℤ side (pos 1)) && not (eqb_ℤ side (pos 2)))) [
          | inl b ↦ absurd (ground arith)
          | inr b ↦
              elim (Bool-cases
                (off_multiple quantity || ltb_ℤ quantity (pos 10) || ltb_ℤ (pos 1000) quantity)) [
                  | inl c ↦ absurd (ground arith)
                  | inr c ↦
                      let (s, side_is) = side_of_test side b in
                      let (n, quantity_is, multiple, at_least, at_most) = size_of_test quantity c in
                      record {
                        size = n;
                        traded_side = s;
                        listed = listed_of_code k a;
                        side_is = side_is;
                        quantity_is = quantity_is;
                        multiple = multiple;
                        at_least = at_least;
                        at_most = at_most;
                        finite = ground arith;
                        above = ground arith;
                        below = ground arith;
                      }
                ]
        ]
      ]

  -- An order with a listed instrument, side 1 or 2, a quantity from 10 to 1000 that is a multiple of
  -- 10, and any finite price above 0.0 and not above 1000.0 is accepted: also one below 0.01, or
  -- between two multiples of 0.01.
  pub validate_order-none :
      (k : InstrumentType) (side : ℤ) (price : Double) (quantity : ℤ)
      → IsValid doubles k side price quantity
      → validate_order doubles k side price quantity ≡ none
  unfolding validate_order
  validate_order-none k side price quantity v =
      let a : (instrument_code k == instrument_code count) ≡ false = ground (arith, v.listed) in
      let b : (not (eqb_ℤ side (pos 1)) && not (eqb_ℤ side (pos 2))) ≡ false =
        rw v.side_is (side_test v.traded_side) in
      let c : (off_multiple quantity || ltb_ℤ quantity (pos 10) || ltb_ℤ (pos 1000) quantity)
          ≡ false =
        rw v.quantity_is (ground (arith, v.multiple, v.at_least, v.at_most)) in
      rw (a, b, c, v.finite, v.above, v.below)
    where
      side_test :
          (s : Side)
          → (not (eqb_ℤ (pos (side_code s)) (pos 1)) && not (eqb_ℤ (pos (side_code s)) (pos 2)))
            ≡ false
      side_test buy = refl
      side_test sell = refl
