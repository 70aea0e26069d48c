-- ===== src/Types/Format.antt =====
-- src/common/types.cpp: `format_ticks_to_buffer`. `none` is the result 0; otherwise the text that
-- the buffer holds, whose length is the result. A null buffer counts as one of size 0.
pub mod Shows
use flower_exchange.Base.{
  ℕ, zero, suc, ◌+◌, ◌/◌, ◌%◌, Option, none, some, [], ◌∷◌, ◌++◌, length, ltb, if◌then◌else◌, ◌>>=◌,
}
use flower_exchange.Types.{Text, PriceTick}

-- The decimal digits of a number, most significant first, in front of `tail`.
unfoldable pub digits_of : ℕ → ℕ → Text → Text
digits_of zero n tail = tail
digits_of (suc fuel) n tail =
    let shown = (b'0' + n % 10) ∷ tail in
    let rest = digits_of fuel (n / 10) shown in if ltb n 10 then shown else rest

-- `std::to_chars(first, first + size, n)`.
unfoldable pub to_chars : ℕ → ℕ → Option Text
unfolding digits_of
to_chars size n =
    let text = digits_of (suc n) n [] in if ltb size (length text) then none else some text

unfoldable pub format_ticks_to_buffer : PriceTick → ℕ → Option Text
unfolding to_chars
format_ticks_to_buffer ticks buffer_size = if ltb buffer_size 5 then none else (do
  integer_text ← to_chars buffer_size (ticks / 100)
  if ltb buffer_size (length integer_text + 4)
      then none
      else some (integer_text ++ b'.' ∷ (b'0' + ticks % 100 / 10) ∷ (b'0' + ticks % 100 % 10) ∷ []))
