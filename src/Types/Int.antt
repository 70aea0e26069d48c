-- ===== src/Types/Int.antt =====
-- src/common/types.cpp: `string_view_to_int`. The exception is `none`. An `int` that would leave
-- its range stops at the largest one.
pub mod Laws
pub mod Reads
use flower_exchange.Base.{
  ℕ, zero, suc, ◌+◌, ◌-◌, ◌*◌, ◌/◌, Bool, true, false, not, ◌&&◌, ◌||◌, Option, none, some, List,
  [], ◌∷◌, ltb, leb, ◌==◌, if◌then◌else◌, ◌>>=◌, ℤ, pos, negsuc,
}
use flower_exchange.Types.{Text}

-- `std::numeric_limits<int>::max()`.
abbrev pub int_max : ℕ
int_max = 2147483647

abbrev pub is_blank : ℕ → Bool
is_blank c = (c == b' ') || (c == 9)

abbrev pub is_digit : ℕ → Bool
is_digit c = leb b'0' c && leb c b'9'

-- `while (i < sv.size() && (sv[i] == ' ' || sv[i] == '\t')) ++i;`
unfoldable pub skip_blanks : Text → Text
skip_blanks [] = []
skip_blanks (c ∷ sv) = let rest = skip_blanks sv in if is_blank c then rest else c ∷ sv

-- The inner loop, once the number is too large.
unfoldable pub skip_digits : Text → Text
skip_digits [] = []
skip_digits (c ∷ sv) = let rest = skip_digits sv in if is_digit c then rest else c ∷ sv

-- The loop over the digits: the number so far, and what is left of the text.
unfoldable pub parse_digits : ℕ → Text → ℕ × Text
parse_digits result [] = (result, [])
parse_digits result (c ∷ sv) =
    let digit = c - b'0' in
    let rest = parse_digits (result * 10 + digit) sv in
    if is_digit c
    then if ltb ((int_max - digit) / 10) result then (int_max, skip_digits sv) else rest
    else (result, c ∷ sv)

-- The sign, if there is one, and the text behind it.
unfoldable pub read_sign : Text → Bool × Text
read_sign [] = (false, [])
read_sign (c ∷ sv) =
    if c == b'-' then (true, sv) else if c == b'+' then (false, sv) else (false, c ∷ sv)

-- `negative ? -result : result`.
abbrev pub with_sign : Bool → ℕ → ℤ
with_sign false result = pos result
with_sign true zero = pos zero
with_sign true (suc n) = negsuc n

abbrev pub starts_with_digit : Text → Bool
starts_with_digit [] = false
starts_with_digit (c ∷ sv) = is_digit c

abbrev pub is_empty : Text → Bool
is_empty [] = true
is_empty (c ∷ sv) = false

unfoldable pub string_view_to_int : Text → Option ℤ
string_view_to_int sv =
    let (negative, unsigned) = read_sign (skip_blanks sv) in
    let (result, rest) = parse_digits 0 unsigned in
    if starts_with_digit unsigned && is_empty (skip_blanks rest)
    then some (with_sign negative result)
    else none
