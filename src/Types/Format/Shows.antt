-- ===== src/Types/Format/Shows.antt =====
-- src/common/types.cpp: price texts, and the ticks that they denote.
use native.Mathlib.Nat.{pow-suc}
use flower_exchange.Base.{
  ℕ, zero, suc, ◌+◌, ◌-◌, ◌*◌, ◌/◌, ◌%◌, ◌^◌, ◌<◌, ◌≤◌, ◌≡◌, refl, ap, ◌∙◌, arith, inl, inr, Bool,
  true, false, ◌&&◌, some, [], ◌∷◌, ◌++◌, length, ltb, leb, Bool-cases,
}
use flower_exchange.Types.{Text, PriceTick}
use flower_exchange.Types.Format.{digits_of, to_chars, format_ticks_to_buffer}

-- The number that decimal digits denote.
abbrev pub value : ℕ → Text → ℕ
value n [] = n
value n (c ∷ text) = value (n * 10 + (c - b'0')) text

abbrev pub all_digits : Text → Bool
all_digits [] = true
all_digits (c ∷ text) = leb b'0' c && leb c b'9' && all_digits text

value-digits_of :
    (fuel n : ℕ) (tail : Text) → n < fuel → value 0 (digits_of fuel n tail) ≡ value n tail
unfolding digits_of
value-digits_of zero n tail h = absurd (omega arith)
value-digits_of (suc fuel) n tail h = elim (Bool-cases (ltb n 10)) [
  | inl last ↦
      let small : n < 10 = ground arith in
      let same : 0 * 10 + (b'0' + n % 10 - b'0') ≡ n = omega (arith, small) in
      rw last (ap (λ k. value k tail) same)
  | inr more ↦
      let large : 10 ≤ n = ground arith in
      let same : n / 10 * 10 + (b'0' + n % 10 - b'0') ≡ n = omega arith in
      rw more (value-digits_of fuel (n / 10) _ (omega (arith, large)) ∙ ap (λ k. value k tail) same)
]

all_digits-digits_of :
    (fuel n : ℕ) (tail : Text) → all_digits tail ≡ true → all_digits (digits_of fuel n tail) ≡ true
unfolding digits_of
all_digits-digits_of zero n tail d = d
all_digits-digits_of (suc fuel) n tail d =
    let shown : all_digits ((b'0' + n % 10) ∷ tail) ≡ true = ground arith in
    elim (Bool-cases (ltb n 10)) [
      | inl last ↦ rw last shown
      | inr more ↦ rw more (all_digits-digits_of fuel (n / 10) _ shown)
    ]

length-digits_of :
    (k fuel n : ℕ) (tail : Text)
    → n < 10 ^ suc k
    → length (digits_of fuel n tail) ≤ suc k + length tail
unfolding digits_of
length-digits_of k zero n tail small = omega arith
length-digits_of zero (suc fuel) n tail small =
    let e : ltb n 10 ≡ true = ground arith in rw e (omega arith)
length-digits_of (suc k) (suc fuel) n tail small = elim (Bool-cases (ltb n 10)) [
  | inl last ↦ rw last (omega arith)
  | inr more ↦
      let power : 10 ^ suc (suc k) ≡ 10 ^ suc k * 10 = pow-suc 10 (suc k) in
      let fewer : n / 10 < 10 ^ suc k = omega (arith, small, power) in
      let rest = length-digits_of k fuel (n / 10) ((b'0' + n % 10) ∷ tail) fewer in
      rw more (omega (arith, rest))
]

value-append : (n : ℕ) (xs ys : Text) → value n (xs ++ ys) ≡ value (value n xs) ys
value-append n [] ys = refl
value-append n (x ∷ xs) ys = value-append (n * 10 + (x - b'0')) xs ys

all_digits-append :
    (xs ys : Text) → all_digits xs ≡ true → all_digits ys ≡ true → all_digits (xs ++ ys) ≡ true
all_digits-append [] ys d e = e
all_digits-append (x ∷ xs) ys d e =
    let rest = all_digits-append xs ys (ground arith) e in ground arith

abbrev pub Shows : PriceTick → ℕ → Type 0
Shows ticks size =
    (whole : Text) × (tenths : ℕ) × (hundredths : ℕ) × (format_ticks_to_buffer ticks size
      ≡ some (whole ++ b'.' ∷ tenths ∷ hundredths ∷ []))
    × (all_digits (whole ++ tenths ∷ hundredths ∷ []) ≡ true)
    × (value 0 (whole ++ tenths ∷ hundredths ∷ []) ≡ ticks)

-- A price of fewer than `10 ^ (k + 1)` whole units, with a buffer of `k + 5` bytes at least: the text
-- is written, and it is digits with a point before the last two, which without the point denote the
-- ticks.
pub format_ticks_to_buffer-Shows :
    (ticks : PriceTick) (size k : ℕ) → ticks / 100 < 10 ^ suc k → k + 5 ≤ size → Shows ticks size
unfolding format_ticks_to_buffer to_chars
format_ticks_to_buffer-Shows ticks size k small room =
    let whole : Text = digits_of (suc (ticks / 100)) (ticks / 100) [] in
    let short = length-digits_of k (suc (ticks / 100)) (ticks / 100) [] small in
    let enough : ltb size 5 ≡ false = ground (arith, room) in
    let fits : ltb size (length whole) ≡ false = ground (arith, room, short) in
    let all_fits : ltb size (length whole + 4) ≡ false = ground (arith, room, short) in
    let a : ℕ = b'0' + ticks % 100 / 10 in
    let b : ℕ = b'0' + ticks % 100 % 10 in
    let units = value-digits_of (suc (ticks / 100)) (ticks / 100) [] (omega arith) in
    let cents : (ticks / 100 * 10 + (a - b'0')) * 10 + (b - b'0') ≡ ticks = omega arith in
    (
      whole,
      a,
      b,
      rw (enough, fits, all_fits) refl,
      all_digits-append whole (a ∷ b ∷ [])
          (all_digits-digits_of (suc (ticks / 100)) (ticks / 100) [] refl) (ground arith),
      value-append 0 whole (a ∷ b ∷ [])
          ∙ ap (λ n. (n * 10 + (a - b'0')) * 10 + (b - b'0')) units
          ∙ cents,
    )
