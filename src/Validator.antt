-- ===== src/Validator.antt =====
-- src/common/validator.h: `validate_order`. Floating point is a parameter.
pub mod Laws
pub mod Refusals
use flower_exchange.Base.{
  ℕ, suc, ◌%◌, ◌≤◌, ◌≡◌, refl, arith, inl, inr, Bool, true, false, not, ◌&&◌, ◌||◌, Option, none,
  some, List, [], ◌∷◌, ltb, leb, ◌==◌, if◌then◌else◌, Bool-cases, ℤ, pos, negsuc, ltb_ℤ, eqb_ℤ, ◌<◌,
}
use flower_exchange.Types.{
  Text, InstrumentType, rose, lavender, lotus, tulip, orchid, count, instrument_code, Side, buy,
  sell, side_code, quantity_multiple, min_quantity, max_quantity,
}
use flower_exchange.Types.Names.{parse_instrument}
use flower_exchange.Doubles.{Doubles, min_valid_price, max_valid_price}

-- `quantity % QUANTITY_MULTIPLE != 0`: the sign of a remainder does not matter here.
abbrev pub off_multiple : ℤ → Bool
off_multiple (pos n) = not (n % quantity_multiple == 0)
off_multiple (negsuc n) = not (suc n % quantity_multiple == 0)

pub data Reason : Type 0 where
  invalid_instrument invalid_side invalid_size invalid_price : Reason

abbrev pub reason_text : Reason → Text
reason_text invalid_instrument =
    b'I' ∷ b'n' ∷ b'v' ∷ b'a' ∷ b'l' ∷ b'i' ∷ b'd' ∷ b' ' ∷ b'i' ∷ b'n' ∷ b's' ∷ b't' ∷ b'r' ∷ b'u'
    ∷ b'm' ∷ b'e' ∷ b'n' ∷ b't' ∷ []
reason_text invalid_side =
    b'I' ∷ b'n' ∷ b'v' ∷ b'a' ∷ b'l' ∷ b'i' ∷ b'd' ∷ b' ' ∷ b's' ∷ b'i' ∷ b'd' ∷ b'e' ∷ []
reason_text invalid_size =
    b'I' ∷ b'n' ∷ b'v' ∷ b'a' ∷ b'l' ∷ b'i' ∷ b'd' ∷ b' ' ∷ b's' ∷ b'i' ∷ b'z' ∷ b'e' ∷ []
reason_text invalid_price =
    b'I' ∷ b'n' ∷ b'v' ∷ b'a' ∷ b'l' ∷ b'i' ∷ b'd' ∷ b' ' ∷ b'p' ∷ b'r' ∷ b'i' ∷ b'c' ∷ b'e' ∷ []

module _ (doubles : Doubles) where
  open doubles use {Double, isfinite, leb_double, ltb_double}

  -- `none` is `{true, nullptr}`; a reason stands for `{false, reason_text}`.
  unfoldable pub validate_order : InstrumentType → ℤ → Double → ℤ → Option Reason
  validate_order instrument side price quantity =
      if instrument_code instrument == instrument_code count
      then some invalid_instrument
      else if not (eqb_ℤ side (pos (side_code buy))) && not (eqb_ℤ side (pos (side_code sell)))
      then some invalid_side
      else if off_multiple quantity
          || ltb_ℤ quantity (pos min_quantity)
          || ltb_ℤ (pos max_quantity) quantity
      then some invalid_size
      else if not (isfinite price)
          || leb_double price (min_valid_price doubles)
          || ltb_double (max_valid_price doubles) price
      then some invalid_price
      else none

  -- The second overload: an unknown name leaves `COUNT`.
  unfoldable pub validate_named : Text → ℤ → Double → ℤ → Option Reason
  unfolding validate_order
  validate_named instrument side price quantity =
      let (found, parsed) = parse_instrument instrument count in
      validate_order parsed side price quantity

  pub record IsValid (instrument : InstrumentType) (side : ℤ) (price : Double) (quantity : ℤ)
      : Type 0 where
    pub size : ℕ
    pub traded_side : Side
    pub listed : instrument_code instrument < 5
    pub side_is : side ≡ pos (side_code traded_side)
    pub quantity_is : quantity ≡ pos size
    pub multiple : size % 10 ≡ 0
    pub at_least : 10 ≤ size
    pub at_most : size ≤ 1000
    pub finite : isfinite price ≡ true
    pub above : leb_double price (min_valid_price doubles) ≡ false
    pub below : ltb_double (max_valid_price doubles) price ≡ false
