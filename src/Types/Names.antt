-- ===== src/Types/Names.antt =====
-- src/common/types.cpp: the names of instruments and statuses.
use flower_exchange.Base.{
  ◌≡◌, ◌≢◌, ◌<◌, refl, arith, ap, inl, inr, ◌⊎◌, Bool, true, false, ◌&&◌, [], ◌∷◌, ◌==◌,
  if◌then◌else◌, Bool-cases,
}
use flower_exchange.Types.{
  Text, InstrumentType, rose, lavender, lotus, tulip, orchid, count, instrument_code, ExecStatus,
  new, rejected, fill, pfill,
}

abbrev pub instrument_to_string : InstrumentType → Text
instrument_to_string rose = b'R' ∷ b'o' ∷ b's' ∷ b'e' ∷ []
instrument_to_string lavender = b'L' ∷ b'a' ∷ b'v' ∷ b'e' ∷ b'n' ∷ b'd' ∷ b'e' ∷ b'r' ∷ []
instrument_to_string lotus = b'L' ∷ b'o' ∷ b't' ∷ b'u' ∷ b's' ∷ []
instrument_to_string tulip = b'T' ∷ b'u' ∷ b'l' ∷ b'i' ∷ b'p' ∷ []
instrument_to_string orchid = b'O' ∷ b'r' ∷ b'c' ∷ b'h' ∷ b'i' ∷ b'd' ∷ []
instrument_to_string count = b'U' ∷ b'N' ∷ b'K' ∷ b'N' ∷ b'O' ∷ b'W' ∷ b'N' ∷ []

abbrev pub exec_status_to_string : ExecStatus → Text
exec_status_to_string new = b'N' ∷ b'e' ∷ b'w' ∷ []
exec_status_to_string rejected = b'R' ∷ b'e' ∷ b'j' ∷ b'e' ∷ b'c' ∷ b't' ∷ []
exec_status_to_string fill = b'F' ∷ b'i' ∷ b'l' ∷ b'l' ∷ []
exec_status_to_string pfill = b'P' ∷ b'f' ∷ b'i' ∷ b'l' ∷ b'l' ∷ []

abbrev pub eqb_text : Text → Text → Bool
eqb_text [] [] = true
eqb_text [] (y ∷ ys) = false
eqb_text (x ∷ xs) [] = false
eqb_text (x ∷ xs) (y ∷ ys) = (x == y) && eqb_text xs ys

-- The result, and what `out` holds after the call.
unfoldable pub parse_instrument : Text → InstrumentType → Bool × InstrumentType
parse_instrument instrument out =
    if eqb_text instrument (b'R' ∷ b'o' ∷ b's' ∷ b'e' ∷ [])
    then (true, rose)
    else if eqb_text instrument (b'L' ∷ b'a' ∷ b'v' ∷ b'e' ∷ b'n' ∷ b'd' ∷ b'e' ∷ b'r' ∷ [])
    then (true, lavender)
    else if eqb_text instrument (b'L' ∷ b'o' ∷ b't' ∷ b'u' ∷ b's' ∷ [])
    then (true, lotus)
    else if eqb_text instrument (b'T' ∷ b'u' ∷ b'l' ∷ b'i' ∷ b'p' ∷ [])
    then (true, tulip)
    else if eqb_text instrument (b'O' ∷ b'r' ∷ b'c' ∷ b'h' ∷ b'i' ∷ b'd' ∷ [])
    then (true, orchid)
    else (false, out)

eq_of_eqb_text : (xs ys : Text) → eqb_text xs ys ≡ true → xs ≡ ys
eq_of_eqb_text [] [] e = refl
eq_of_eqb_text [] (y ∷ ys) e = absurd (ground arith)
eq_of_eqb_text (x ∷ xs) [] e = absurd (ground arith)
eq_of_eqb_text (x ∷ xs) (y ∷ ys) e =
    let here : x ≡ y = ground arith in
    let rest : xs ≡ ys = eq_of_eqb_text xs ys (ground arith) in cc

eqb_text_refl : (xs : Text) → eqb_text xs xs ≡ true
eqb_text_refl [] = refl
eqb_text_refl (x ∷ xs) = ground (arith, eqb_text_refl xs)

ne_of_eqb_text : (xs ys : Text) → eqb_text xs ys ≡ false → xs ≢ ys
ne_of_eqb_text xs ys e same = absurd (ground (arith, ap (eqb_text xs) same, eqb_text_refl xs))

-- The name of a listed instrument is parsed to it; for any other text the call fails and leaves
-- `out` as it was.
pub parse_instrument_lem :
    (s : Text) (out : InstrumentType)
    → ((k : InstrumentType) × (instrument_code k < 5)
        × (s ≡ instrument_to_string k)
        × (parse_instrument s out ≡ (true, k)))
      ⊎ ((parse_instrument s out ≡ (false, out))
          × ((k : InstrumentType) → instrument_code k < 5 → s ≢ instrument_to_string k))
unfolding parse_instrument
parse_instrument_lem s out = elim (Bool-cases (eqb_text s (instrument_to_string rose))) [
  | inl e ↦ inl (rose, omega arith, eq_of_eqb_text s _ e, rw e refl)
  | inr a ↦ elim (Bool-cases (eqb_text s (instrument_to_string lavender))) [
    | inl e ↦ inl (lavender, omega arith, eq_of_eqb_text s _ e, rw (a, e) refl)
    | inr b ↦ elim (Bool-cases (eqb_text s (instrument_to_string lotus))) [
      | inl e ↦ inl (lotus, omega arith, eq_of_eqb_text s _ e, rw (a, b, e) refl)
      | inr c ↦ elim (Bool-cases (eqb_text s (instrument_to_string tulip))) [
        | inl e ↦ inl (tulip, omega arith, eq_of_eqb_text s _ e, rw (a, b, c, e) refl)
        | inr d ↦ elim (Bool-cases (eqb_text s (instrument_to_string orchid))) [
          | inl e ↦ inl (orchid, omega arith, eq_of_eqb_text s _ e, rw (a, b, c, d, e) refl)
          | inr e ↦ inr (rw (a, b, c, d, e) refl, others a b c d e)
        ]
      ]
    ]
  ]
]
  where
    others :
        eqb_text s (instrument_to_string rose) ≡ false
        → eqb_text s (instrument_to_string lavender) ≡ false
        → eqb_text s (instrument_to_string lotus) ≡ false
        → eqb_text s (instrument_to_string tulip) ≡ false
        → eqb_text s (instrument_to_string orchid) ≡ false
        → (k : InstrumentType) → instrument_code k < 5
        → s ≢ instrument_to_string k
    others a b c d e rose l = ne_of_eqb_text s _ a
    others a b c d e lavender l = ne_of_eqb_text s _ b
    others a b c d e lotus l = ne_of_eqb_text s _ c
    others a b c d e tulip l = ne_of_eqb_text s _ d
    others a b c d e orchid l = ne_of_eqb_text s _ e
    others a b c d e count l = absurd (omega (arith, l))
