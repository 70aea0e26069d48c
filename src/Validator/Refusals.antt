-- ===== src/Validator/Refusals.antt =====
-- The reason for which `validate_order` refuses an order: the first condition that it does not meet.
use flower_exchange.Base.{
  ℕ, ◌%◌, ◌≤◌, ◌≡◌, ◌≢◌, refl, sym, ap, ◌∙◌, subst, arith, inl, inr, ◌⊎◌, Bool, true, false, not,
  ◌&&◌, ◌||◌, some, ◌==◌, Bool-cases, ℤ, pos, negsuc, ltb_ℤ, eqb_ℤ,
}
use flower_exchange.Types.{
  InstrumentType, rose, lavender, lotus, tulip, orchid, count, instrument_code,
}
use flower_exchange.Doubles.{Doubles, min_valid_price, max_valid_price}
use flower_exchange.Validator.{
  Reason, invalid_instrument, invalid_side, invalid_size, invalid_price, off_multiple,
  validate_order,
}
use flower_exchange.Validator.Laws.{size_of_test}

-- 1 or 2.
abbrev pub IsSide : ℤ → Type 0
IsSide side = (side ≡ pos 1) ⊎ (side ≡ pos 2)

-- From 10 to 1000, and a multiple of 10.
abbrev pub IsSize : ℤ → Type 0
IsSize quantity = (n : ℕ) × (quantity ≡ pos n) × (n % 10 ≡ 0) × (10 ≤ n) × (n ≤ 1000)

count_of_code : (k : InstrumentType) → (instrument_code k == 5) ≡ true → k ≡ count
count_of_code rose e = absurd (ground arith)
count_of_code lavender e = absurd (ground arith)
count_of_code lotus e = absurd (ground arith)
count_of_code tulip e = absurd (ground arith)
count_of_code orchid e = absurd (ground arith)
count_of_code count e = refl

listed-ne : (k : InstrumentType) → (instrument_code k == 5) ≡ false → k ≢ count
listed-ne k e same = absurd (ground (arith, ap instrument_code same))

IsSide-of_test :
    (side : ℤ) → (not (eqb_ℤ side (pos 1)) && not (eqb_ℤ side (pos 2))) ≡ false → IsSide side
IsSide-of_test (pos n) e = elim (Bool-cases (n == 1)) [
  | inl f ↦ inl (ap pos (ground arith))
  | inr f ↦ inr (ap pos (ground arith))
]
IsSide-of_test (negsuc n) e = absurd (ground arith)

ne_of_test :
    (side : ℤ)
    → (not (eqb_ℤ side (pos 1)) && not (eqb_ℤ side (pos 2))) ≡ true
    → (side ≢ pos 1) × (side ≢ pos 2)
ne_of_test side e = (
  λ one. absurd (false_ne_true (sym (ap test one) ∙ e)),
  λ two. absurd (false_ne_true (sym (ap test two) ∙ e)),
)
  where
    test : ℤ → Bool
    test z = not (eqb_ℤ z (pos 1)) && not (eqb_ℤ z (pos 2))

    false_ne_true : false ≢ true
    false_ne_true f = absurd (ground arith)

IsSize-refuted :
    (quantity : ℤ)
    → (off_multiple quantity || ltb_ℤ quantity (pos 10) || ltb_ℤ (pos 1000) quantity) ≡ true
    → ¬ IsSize quantity
IsSize-refuted (pos n) e (m, same, multiple, at_least, at_most) =
    let number : n ≡ m = ground arith in absurd (ground arith)
IsSize-refuted (negsuc n) e (m, same, multiple, at_least, at_most) = absurd (ground arith)

module _ (doubles : Doubles) where
  open doubles use {Double, isfinite, leb_double, ltb_double}

  -- Finite, above 0.0, and not above 1000.0.
  abbrev pub IsPrice : Double → Type 0
  IsPrice price =
      (isfinite price ≡ true)
      × (leb_double price (min_valid_price doubles) ≡ false)
      × (ltb_double (max_valid_price doubles) price ≡ false)

  abbrev pub Refused : InstrumentType → ℤ → Double → ℤ → Reason → Type 0
  Refused k side price quantity invalid_instrument = k ≡ count
  Refused k side price quantity invalid_side = (k ≢ count) × (side ≢ pos 1) × (side ≢ pos 2)
  Refused k side price quantity invalid_size = (k ≢ count) × IsSide side × (¬ IsSize quantity)
  Refused k side price quantity invalid_price =
      (k ≢ count) × IsSide side × IsSize quantity × (¬ IsPrice price)

  IsPrice-refuted :
      (price : Double)
      → (not (isfinite price)
          || leb_double price (min_valid_price doubles)
          || ltb_double (max_valid_price doubles) price)
        ≡ true
      → ¬ IsPrice price
  IsPrice-refuted price e (finite, above, below) = absurd (ground arith)

  some_inj : {r s : Reason} → some r ≡ some s → r ≡ s
  some_inj e = cc

  -- An order that is refused for a reason fails the condition of that reason and meets those before it:
  -- the instrument is listed; the side is 1 or 2; the quantity is a multiple of 10 from 10 to 1000; the
  -- price is finite, above 0.0 and not above 1000.0.
  pub validate_order-Refused :
      (k : InstrumentType) (side : ℤ) (price : Double) (quantity : ℤ) (reason : Reason)
      → validate_order doubles k side price quantity ≡ some reason
      → Refused k side price quantity reason
  unfolding validate_order
  validate_order-Refused k side price quantity reason e =
      elim (Bool-cases (instrument_code k == 5)) [
        | inl a ↦ because invalid_instrument (rw a refl) (count_of_code k a)
        | inr a ↦ elim (Bool-cases (not (eqb_ℤ side (pos 1)) && not (eqb_ℤ side (pos 2)))) [
          | inl b ↦
              let (one, two) = ne_of_test side b in
              because invalid_side (rw (a, b) refl) (listed-ne k a, one, two)
          | inr b ↦
              elim (Bool-cases
                (off_multiple quantity || ltb_ℤ quantity (pos 10) || ltb_ℤ (pos 1000) quantity)) [
                  | inl c ↦
                      because invalid_size (rw (a, b, c) refl)
                        (listed-ne k a, IsSide-of_test side b, IsSize-refuted quantity c)
                  | inr c ↦
                      elim (Bool-cases (
                        not (isfinite price)
                        || leb_double price (min_valid_price doubles)
                        || ltb_double (max_valid_price doubles) price)) [
                          | inl d ↦ because invalid_price (rw (a, b, c, d) refl) (
                            listed-ne k a,
                            IsSide-of_test side b,
                            size_of_test quantity c,
                            IsPrice-refuted price d,
                          )
                          | inr d ↦ absurd (ground arith)
                        ]
                ]
        ]
      ]
    where
      because :
          (r : Reason)
          → validate_order doubles k side price quantity ≡ some r
          → Refused k side price quantity r
          → Refused k side price quantity reason
      because r same fails = subst (Refused k side price quantity) (some_inj (sym same ∙ e)) fails
