-- ===== src/Writer/Numbers.antt =====
-- The numbers of a row: how long they are, and that they are digits with a sign.
use flower_exchange.Base.{
  ℕ, zero, suc, ◌+◌, ◌%◌, ◌/◌, ◌≤◌, ◌<◌, ◌≡◌, refl, arith, inl, inr, true, [], ◌∷◌, length, ltb,
  leb, Bool-cases, ℤ, pos, negsuc, eqb_ℤ,
}
use flower_exchange.Types.{Text, max_quantity}
use flower_exchange.Types.Format.{digits_of, to_chars}
use flower_exchange.Csv.Join.{is_plain}
use flower_exchange.Writer.{to_chars_int, or_zero, write_side_to_buffer, write_quantity_to_buffer}

to_chars-length : (size n : ℕ) → 0 < size → length (or_zero (to_chars size n)) ≤ size
unfolding to_chars
to_chars-length size n positive = elim (Bool-cases (ltb size (length (digits_of (suc n) n [])))) [
  | inl over ↦ rw over (omega (arith, positive))
  | inr fits ↦ rw fits (ground arith)
]

to_chars_int-length : (side : ℤ) → length (or_zero (to_chars_int 16 side)) ≤ 16
unfolding to_chars_int to_chars
to_chars_int-length (pos n) = to_chars-length 16 n (omega arith)
to_chars_int-length (negsuc n) =
    elim (Bool-cases (ltb 15 (length (digits_of (suc (suc n)) (suc n) [])))) [
      | inl over ↦ rw over (omega arith)
      | inr fits ↦ rw fits (ground arith)
    ]

pub side-length : (side : ℤ) → length (write_side_to_buffer side) ≤ 16
unfolding write_side_to_buffer
side-length side = elim (Bool-cases (eqb_ℤ side (pos 1))) [
  | inl bought ↦ rw bought (omega arith)
  | inr other ↦ elim (Bool-cases (eqb_ℤ side (pos 2))) [
    | inl sold ↦ rw (other, sold) (omega arith)
    | inr neither ↦ rw (other, neither) (to_chars_int-length side)
  ]
]

pub quantity-length : (quantity : ℤ) → length (write_quantity_to_buffer quantity) ≤ 16
unfolding write_quantity_to_buffer
quantity-length (pos quantity) = elim (Bool-cases (leb quantity max_quantity)) [
  | inl small ↦
      let short = to_chars-length 4 quantity (omega arith) in rw small (omega (arith, short))
  | inr large ↦ rw large (to_chars_int-length (pos quantity))
]
quantity-length (negsuc n) = to_chars_int-length (negsuc n)

digits_of-plain : (fuel n : ℕ) (t : Text) → is_plain t ≡ true → is_plain (digits_of fuel n t) ≡ true
unfolding digits_of
digits_of-plain zero n t p = p
digits_of-plain (suc fuel) n t p =
    let digit : is_plain ((b'0' + n % 10) ∷ t) ≡ true = ground arith in
    elim (Bool-cases (ltb n 10)) [
      | inl last ↦ rw last digit
      | inr more ↦ rw more (digits_of-plain fuel (n / 10) ((b'0' + n % 10) ∷ t) digit)
    ]

to_chars-plain : (size n : ℕ) → is_plain (or_zero (to_chars size n)) ≡ true
unfolding to_chars
to_chars-plain size n = elim (Bool-cases (ltb size (length (digits_of (suc n) n [])))) [
  | inl over ↦ rw over refl
  | inr fits ↦ rw fits (digits_of-plain (suc n) n [] refl)
]

to_chars_int-plain : (side : ℤ) → is_plain (or_zero (to_chars_int 16 side)) ≡ true
unfolding to_chars_int to_chars
to_chars_int-plain (pos n) = to_chars-plain 16 n
to_chars_int-plain (negsuc n) =
    elim (Bool-cases (ltb 15 (length (digits_of (suc (suc n)) (suc n) [])))) [
      | inl over ↦ rw over refl
      | inr fits ↦ rw fits (digits_of-plain (suc (suc n)) (suc n) [] refl)
    ]

pub side-plain : (side : ℤ) → is_plain (write_side_to_buffer side) ≡ true
unfolding write_side_to_buffer
side-plain side = elim (Bool-cases (eqb_ℤ side (pos 1))) [
  | inl bought ↦ rw bought refl
  | inr other ↦ elim (Bool-cases (eqb_ℤ side (pos 2))) [
    | inl sold ↦ rw (other, sold) refl
    | inr neither ↦ rw (other, neither) (to_chars_int-plain side)
  ]
]

pub quantity-plain : (quantity : ℤ) → is_plain (write_quantity_to_buffer quantity) ≡ true
unfolding write_quantity_to_buffer
quantity-plain (pos quantity) = elim (Bool-cases (leb quantity max_quantity)) [
  | inl small ↦ rw small (to_chars-plain 4 quantity)
  | inr large ↦ rw large (to_chars_int-plain (pos quantity))
]
quantity-plain (negsuc n) = to_chars_int-plain (negsuc n)
