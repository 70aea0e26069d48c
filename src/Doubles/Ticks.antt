-- ===== src/Doubles/Ticks.antt =====
-- src/common/types.cpp: `double_to_ticks`, `ticks_to_double` and `format_price_to_buffer`. For the last,
-- `none` is the result 0; otherwise the text that the buffer holds, whose length is the result.
use flower_exchange.Base.{
  ℕ, ◌+◌, ◌-◌, ◌/◌, ◌%◌, ◌^◌, not, ◌&&◌, ◌||◌, Option, none, some, [], ◌∷◌, ◌++◌, length, ltb, leb,
  ◌==◌, if◌then◌else◌, ◌>>=◌, ℤ, pos, negsuc,
}
use flower_exchange.Types.{Text, PriceTick}
use flower_exchange.Types.Format.{to_chars, format_ticks_to_buffer}
use flower_exchange.Doubles.{Doubles, tick_size}

-- `static_cast<PriceTick>` of a `long long`.
abbrev pub to_uint64 : ℤ → ℕ
to_uint64 (pos n) = n % 2 ^ 64
to_uint64 (negsuc n) = 2 ^ 64 - 1 - n

-- `static_cast<unsigned long long>(-(cents + 1)) + 1` for a negative number, else the number.
abbrev pub magnitude : ℤ → ℕ
magnitude (pos n) = n
magnitude (negsuc n) = n + 1

abbrev pub sign_of : ℤ → Text
sign_of (pos n) = []
sign_of (negsuc n) = b'-' ∷ []

module _ (doubles : Doubles) where
  open doubles use {
    Double, isfinite, leb_double, ltb_double, of_int, mul_double, div_double, llround,
  }

  unfoldable pub double_to_ticks : Double → PriceTick
  double_to_ticks price =
      let scaled = div_double price (tick_size doubles) in
      if not (isfinite price)
      then 2 ^ 64 - 1
      else if leb_double price (of_int (pos 0))
      then 0
      else if leb_double (of_int (pos (2 ^ 64 - 1))) scaled
      then 2 ^ 64 - 1
      else to_uint64 (llround scaled)

  unfoldable pub ticks_to_double : PriceTick → Double
  ticks_to_double ticks = mul_double (of_int (pos ticks)) (tick_size doubles)

  -- The way of a price that `format_ticks_to_buffer` does not take: cents, with a sign.
  unfoldable pub format_cents : ℤ → ℕ → Option Text
  format_cents cents buffer_size =
      let sign = sign_of cents in
      if ltb 0 (length sign) && leb buffer_size 1 then none else (do
        integer_text ← to_chars (buffer_size - length sign) (magnitude cents / 100)
        if ltb buffer_size (length sign + length integer_text + 4)
            then none
            else some (
                sign
                ++ (integer_text
                    ++ b'.'
                      ∷ (b'0' + magnitude cents % 100 / 10)
                      ∷ (b'0' + magnitude cents % 100 % 10)
                      ∷ [])))

  unfoldable pub format_signed : Double → ℕ → Option Text
  unfolding format_cents
  format_signed price buffer_size =
      let scaled = mul_double price (of_int (pos 100)) in
      if not (isfinite price) || ltb buffer_size 5
      then none
      else if ltb_double (of_int (pos (2 ^ 63 - 1))) scaled
          || ltb_double scaled (of_int (negsuc (2 ^ 63 - 1)))
      then none
      else format_cents (llround scaled) buffer_size

  unfoldable pub format_price_to_buffer : Double → ℕ → Option Text
  unfolding format_signed double_to_ticks
  format_price_to_buffer price buffer_size =
      if buffer_size == 0
      then none
      else if leb_double (of_int (pos 0)) price
      then elim (format_ticks_to_buffer (double_to_ticks price) buffer_size) [
        | some text ↦ some text
        | none ↦ format_signed price buffer_size
      ]
      else format_signed price buffer_size
