-- ===== src/Doubles/Parse.antt =====
-- src/common/types.cpp: `string_view_to_double`. The exception is `none`.
use flower_exchange.Base.{
  ℕ, ◌+◌, ◌-◌, ◌*◌, ◌/◌, Bool, false, not, ◌||◌, Option, none, some, [], ◌∷◌, leb, ◌==◌,
  if◌then◌else◌, ◌>>=◌, pos,
}
use flower_exchange.Types.{Text}
use flower_exchange.Types.Int.{
  int_max, is_digit, skip_blanks, read_sign, with_sign, starts_with_digit, is_empty,
}
use flower_exchange.Doubles.{Doubles}

-- The exponent's digits: past the largest `int` it stays there.
unfoldable pub read_exponent : ℕ → Text → ℕ × Text
read_exponent exponent [] = (exponent, [])
read_exponent exponent (c ∷ sv) =
    let digit = c - b'0' in
    let rest =
      read_exponent
        (if leb exponent ((int_max - digit) / 10) then exponent * 10 + digit else int_max) sv in
    if is_digit c then rest else (exponent, c ∷ sv)

module _ (doubles : Doubles) where
  open doubles use {Double, of_int, add_double, mul_double, neg_double, pow_ten, tenth}

  abbrev pub digit_value : ℕ → Double
  digit_value c = of_int (pos (c - b'0'))

  -- The digits before the point: the value so far, and what is left.
  unfoldable pub read_whole : Double → Text → Double × Text
  read_whole value [] = (value, [])
  read_whole value (c ∷ sv) =
      let rest = read_whole (add_double (mul_double value (of_int (pos 10))) (digit_value c)) sv in
      if is_digit c then rest else (value, c ∷ sv)

  -- The digits behind the point, each worth a tenth of the one before it.
  unfoldable pub read_fraction : Double → Double → Text → Double × Text
  read_fraction value place [] = (value, [])
  read_fraction value place (c ∷ sv) =
      let rest =
        read_fraction (add_double value (mul_double (digit_value c) place)) (mul_double place tenth)
          sv in
      if is_digit c then rest else (value, c ∷ sv)

  -- `if (i < sv.size() && sv[i] == '.')`: whether a digit follows, the value, and what is left.
  unfoldable pub read_point : Double → Text → Bool × Double × Text
  unfolding read_fraction
  read_point value [] = (false, value, [])
  read_point value (c ∷ sv) =
      if c == b'.'
      then (let (value', rest) = read_fraction value tenth sv in
          (starts_with_digit sv, value', rest))
      else (false, value, c ∷ sv)

  abbrev pub is_exponent : Text → Bool
  is_exponent [] = false
  is_exponent (c ∷ sv) = (c == b'e') || (c == b'E')

  abbrev pub tail : Text → Text
  tail [] = []
  tail (c ∷ sv) = sv

  -- `if (i < sv.size() && (sv[i] == 'e' || sv[i] == 'E'))`.
  unfoldable pub read_scale : Double → Text → Option (Double × Text)
  unfolding read_exponent
  read_scale value sv =
      let (exp_negative, digits) = read_sign (tail sv) in
      let (exponent, rest) = read_exponent 0 digits in
      if not (is_exponent sv)
      then some (value, sv)
      else if not (starts_with_digit digits)
      then none
      else some (mul_double value (pow_ten (of_int (with_sign exp_negative exponent))), rest)

  unfoldable pub string_view_to_double : Text → Option Double
  unfolding read_whole read_point read_scale
  string_view_to_double sv =
      let (negative, unsigned) = read_sign (skip_blanks sv) in
      let (whole, after_whole) = read_whole (of_int (pos 0)) unsigned in
      let (point_digit, value, after_point) = read_point whole after_whole in
      if is_empty (skip_blanks sv)
      then none
      else if not (starts_with_digit unsigned || point_digit)
      then none
      else (do
        (scaled, rest) ← read_scale value after_point
        if is_empty (skip_blanks rest)
            then some (if negative then neg_double scaled else scaled)
            else none)
