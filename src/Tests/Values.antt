-- ===== src/Tests/Values.antt =====
-- Conversions and validation at concrete texts and orders.
use flower_exchange.Base.{
  pos_part, ◌+◌, ◌*◌, ◌/◌, ◌^◌, ℕ, ◌≡◌, ◌≢◌, ◌<◌, ◌⊎◌, refl, arith, true, false, none, some, [],
  ◌∷◌, ltb, leb, pos, negsuc,
}
use flower_exchange.Types.{Text, InstrumentType, lotus, count, instrument_code, buy}
use flower_exchange.Types.Int.{
  string_view_to_int, skip_blanks, parse_digits, read_sign, skip_digits,
}
use flower_exchange.Types.Int.Reads.{
  IsInt, minus, string_view_to_int-some, string_view_to_int-IsInt,
}
use flower_exchange.Types.Names.{instrument_to_string, parse_instrument, parse_instrument_lem}
use flower_exchange.Types.Format.Shows.{Shows, format_ticks_to_buffer-Shows}
use flower_exchange.Doubles.{Doubles}
use flower_exchange.Validator.{IsValid, validate_order, invalid_size}
use flower_exchange.Validator.Refusals.{Refused, validate_order-Refused}
use flower_exchange.Validator.Laws.{validate_order-IsValid, validate_order-none}

-- " -70 "
abbrev negative_seventy : Text
negative_seventy = b' ' ∷ b'-' ∷ b'7' ∷ b'0' ∷ b' ' ∷ []

seventy-IsInt : IsInt negative_seventy (negsuc 69)
seventy-IsInt = record {
  lead = b' ' ∷ [];
  sign = minus;
  ds = b'7' ∷ b'0' ∷ [];
  trail = b' ' ∷ [];
  lead_blank = (refl, tt);
  digits = (refl, (refl, tt));
  some_digit = refl;
  trail_blank = (refl, tt);
  text = refl;
  number = refl;
}

string_view_to_int-some_example : string_view_to_int negative_seventy ≡ some (negsuc 69)
string_view_to_int-some_example = string_view_to_int-some negative_seventy (negsuc 69) seventy-IsInt

read_seventy : string_view_to_int negative_seventy ≡ some (negsuc 69)
unfolding string_view_to_int skip_blanks parse_digits read_sign
read_seventy = refl

string_view_to_int-IsInt_example : IsInt negative_seventy (negsuc 69)
string_view_to_int-IsInt_example =
    string_view_to_int-IsInt negative_seventy (negsuc 69) read_seventy

-- "2147483648" is one more than the largest `int`.
saturated :
    string_view_to_int (b'2' ∷ b'1' ∷ b'4' ∷ b'7' ∷ b'4' ∷ b'8' ∷ b'3' ∷ b'6' ∷ b'4' ∷ b'8' ∷ [])
    ≡ some (pos 2147483647)
unfolding string_view_to_int skip_blanks parse_digits read_sign skip_digits
saturated = refl

-- "7x"
refused : string_view_to_int (b'7' ∷ b'x' ∷ []) ≡ none
unfolding string_view_to_int skip_blanks parse_digits read_sign
refused = refl

parse_instrument_lem_example :
    ((k : InstrumentType) × (instrument_code k < 5)
      × (instrument_to_string lotus ≡ instrument_to_string k)
      × (parse_instrument (instrument_to_string lotus) count ≡ (true, k)))
    ⊎ ((parse_instrument (instrument_to_string lotus) count ≡ (false, count))
        × ((k : InstrumentType)
            → instrument_code k < 5
            → instrument_to_string lotus ≢ instrument_to_string k))
parse_instrument_lem_example = parse_instrument_lem (instrument_to_string lotus) count

-- A number of hundredths; below 0 there is only 0.
abbrev pub hundredths : Doubles
hundredths = record {
  Double = ℕ;
  isfinite = λ x. true;
  leb_double = λ a b. leb a b;
  ltb_double = λ a b. ltb a b;
  of_int = λ n. pos_part n * 100;
  add_double = λ a b. a + b;
  mul_double = λ a b. a * b / 100;
  div_double = λ a b. a * 100 / b;
  neg_double = λ a. 0;
  pow_ten = λ e. 10 ^ (e / 100) * 100;
  llround = λ a. pos ((a + 50) / 100);
  hundredth = 1;
  tenth = 10;
}

accepted : validate_order hundredths lotus (pos 1) 55 (pos 20) ≡ none
unfolding validate_order
accepted = refl

valid : IsValid hundredths lotus (pos 1) 55 (pos 20)
valid = record {
  size = 20;
  traded_side = buy;
  listed = omega arith;
  side_is = refl;
  quantity_is = refl;
  multiple = refl;
  at_least = omega arith;
  at_most = omega arith;
  finite = refl;
  above = refl;
  below = refl;
}

validate_order-IsValid_example : IsValid hundredths lotus (pos 1) 55 (pos 20)
validate_order-IsValid_example =
    validate_order-IsValid hundredths lotus (pos 1) 55 (pos 20) accepted

validate_order-none_example : validate_order hundredths lotus (pos 1) 55 (pos 20) ≡ none
validate_order-none_example = validate_order-none hundredths lotus (pos 1) 55 (pos 20) valid

odd_lot : validate_order hundredths lotus (pos 1) 55 (pos 7) ≡ some invalid_size
unfolding validate_order
odd_lot = refl

validate_order-Refused_example : Refused hundredths lotus (pos 1) 55 (pos 7) invalid_size
validate_order-Refused_example =
    validate_order-Refused hundredths lotus (pos 1) 55 (pos 7) invalid_size odd_lot

format_ticks_to_buffer-Shows_example : Shows 100000 24
format_ticks_to_buffer-Shows_example =
    format_ticks_to_buffer-Shows 100000 24 3 (omega arith) (omega arith)
