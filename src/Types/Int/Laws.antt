-- ===== src/Types/Int/Laws.antt =====
-- What `string_view_to_int` reads: blanks, a sign, digits, blanks.
use flower_exchange.Base.{
  ℕ, ◌+◌, ◌-◌, ◌*◌, ◌/◌, ◌≤◌, ◌<◌, min, ◌≡◌, refl, arith, inl, inr, true, false, [], ◌∷◌, ◌++◌, ltb,
  Bool-cases,
}
use flower_exchange.Types.{Text}
use flower_exchange.Types.Int.{
  int_max, is_blank, is_digit, skip_blanks, skip_digits, parse_digits, starts_with_digit,
}

-- The number that digits denote, without a bound.
abbrev pub value : ℕ → Text → ℕ
value acc [] = acc
value acc (c ∷ ds) = value (acc * 10 + (c - b'0')) ds

abbrev pub AllDigits : Text → Type 0
AllDigits [] = Unit {0}
AllDigits (c ∷ ds) = (is_digit c ≡ true) × AllDigits ds

abbrev pub AllBlanks : Text → Type 0
AllBlanks [] = Unit {0}
AllBlanks (c ∷ ds) = (is_blank c ≡ true) × AllBlanks ds

value-le : (acc : ℕ) (ds : Text) → acc ≤ value acc ds
value-le acc [] = omega arith
value-le acc (c ∷ ds) = omega (arith, value-le (acc * 10 + (c - b'0')) ds)

skip_digits-append :
    (ds rest : Text)
    → AllDigits ds
    → starts_with_digit rest ≡ false
    → skip_digits (ds ++ rest) ≡ rest
unfolding skip_digits
skip_digits-append [] [] a e = refl
skip_digits-append [] (c ∷ rest) a e = rw e
skip_digits-append (c ∷ ds) rest (d, a) e = rw d (skip_digits-append ds rest a e)

-- The number stops at the largest `int`, whatever the count of digits.
pub parse_digits-min :
    (acc : ℕ) (ds rest : Text)
    → acc ≤ int_max
    → AllDigits ds
    → starts_with_digit rest ≡ false
    → parse_digits acc (ds ++ rest) ≡ (min (value acc ds) int_max, rest)
unfolding parse_digits
parse_digits-min acc [] [] small a e = let m : min acc int_max ≡ acc = omega arith in rw m
parse_digits-min acc [] (c ∷ rest) small a e =
    let m : min acc int_max ≡ acc = omega arith in rw (e, m)
parse_digits-min acc (c ∷ ds) rest small (d, a) e =
    elim (Bool-cases (ltb ((int_max - (c - b'0')) / 10) acc)) [
      | inl large ↦
          let least = value-le (acc * 10 + (c - b'0')) ds in
          let over : (int_max - (c - b'0')) / 10 < acc = ground arith in
          let m : min (value (acc * 10 + (c - b'0')) ds) int_max ≡ int_max = omega arith in
          rw (d, large, m, skip_digits-append ds rest a e)
      | inr fine ↦
          let under : acc ≤ (int_max - (c - b'0')) / 10 = ground arith in
          let digit : c - b'0' ≤ 9 = ground arith in
          rw (d, fine) (parse_digits-min (acc * 10 + (c - b'0')) ds rest (omega arith) a e)
    ]

pub skip_blanks-append :
    (bs rest : Text) → AllBlanks bs → skip_blanks (bs ++ rest) ≡ skip_blanks rest
unfolding skip_blanks
skip_blanks-append [] rest a = refl
skip_blanks-append (c ∷ bs) rest (b, a) = rw b (skip_blanks-append bs rest a)
