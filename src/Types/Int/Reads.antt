-- ===== src/Types/Int/Reads.antt =====
-- The texts that `string_view_to_int` accepts, and the number that it gives.
use mathlib.Core.List.{append-nil}
use flower_exchange.Base.{
  min, ◌≡◌, refl, sym, ap, ◌∙◌, arith, inl, inr, Bool, true, false, ◌&&◌, none, some, [], ◌∷◌, ◌++◌,
  ◌==◌, if◌then◌else◌, Bool-cases, ℤ,
}
use flower_exchange.Types.{Text}
use flower_exchange.Types.Int.{
  int_max, is_blank, is_digit, skip_blanks, parse_digits, read_sign, with_sign, starts_with_digit,
  is_empty, string_view_to_int,
}
use flower_exchange.Types.Int.Laws.{
  value, AllDigits, AllBlanks, parse_digits-min, skip_blanks-append,
}

pub data Sign : Type 0 where
  bare plus minus : Sign

abbrev pub sign_text : Sign → Text
sign_text bare = []
sign_text plus = b'+' ∷ []
sign_text minus = b'-' ∷ []

abbrev pub is_negative : Sign → Bool
is_negative bare = false
is_negative plus = false
is_negative minus = true

-- Blanks, a sign or none, at least one digit, blanks.
pub record IsInt (sv : Text) (r : ℤ) : Type 0 where
  pub lead : Text
  pub sign : Sign
  pub ds : Text
  pub trail : Text
  pub lead_blank : AllBlanks lead
  pub digits : AllDigits ds
  pub some_digit : starts_with_digit ds ≡ true
  pub trail_blank : AllBlanks trail
  pub text : sv ≡ lead ++ (sign_text sign ++ (ds ++ trail))
  pub number : r ≡ with_sign (is_negative sign) (min (value 0 ds) int_max)

blanks-stop : (bs : Text) → AllBlanks bs → starts_with_digit bs ≡ false
blanks-stop [] a = refl
blanks-stop (c ∷ bs) (b, a) = ground arith

skip_blanks-nil : (bs : Text) → AllBlanks bs → skip_blanks bs ≡ []
unfolding skip_blanks
skip_blanks-nil [] a = refl
skip_blanks-nil (c ∷ bs) (b, a) = rw b (skip_blanks-nil bs a)

signed-kept :
    (s : Sign) (ds rest : Text)
    → starts_with_digit ds ≡ true
    → skip_blanks (sign_text s ++ (ds ++ rest)) ≡ sign_text s ++ (ds ++ rest)
unfolding skip_blanks
signed-kept s [] rest e = absurd (ground arith)
signed-kept bare (c ∷ ds) rest e = let b : is_blank c ≡ false = ground arith in rw b
signed-kept plus (c ∷ ds) rest e = refl
signed-kept minus (c ∷ ds) rest e = refl

read_sign-text :
    (s : Sign) (ds rest : Text)
    → starts_with_digit ds ≡ true
    → read_sign (sign_text s ++ (ds ++ rest)) ≡ (is_negative s, ds ++ rest)
unfolding read_sign
read_sign-text s [] rest e = absurd (ground arith)
read_sign-text bare (c ∷ ds) rest e =
    let m : (c == b'-') ≡ false = ground arith in
    let p : (c == b'+') ≡ false = ground arith in rw (m, p)
read_sign-text plus (c ∷ ds) rest e = refl
read_sign-text minus (c ∷ ds) rest e = refl

starts-append :
    (ds rest : Text) → starts_with_digit ds ≡ true → starts_with_digit (ds ++ rest) ≡ true
starts-append [] rest e = absurd (ground arith)
starts-append (c ∷ ds) rest e = e

-- Every text of blanks, a sign or none, digits and blanks is read: as the number that the digits
-- denote, or as the largest `int` where that is smaller, with the sign.
pub string_view_to_int-some : (sv : Text) (r : ℤ) → IsInt sv r → string_view_to_int sv ≡ some r
unfolding string_view_to_int
string_view_to_int-some sv r i =
    let starts =
      skip_blanks-append i.lead (sign_text i.sign ++ (i.ds ++ i.trail)) i.lead_blank
      ∙ signed-kept i.sign i.ds i.trail i.some_digit in
    rw (
      i.text,
      i.number,
      starts,
      read_sign-text i.sign i.ds i.trail i.some_digit,
      parse_digits-min 0 i.ds i.trail (omega arith) i.digits (blanks-stop i.trail i.trail_blank),
      starts-append i.ds i.trail i.some_digit,
      skip_blanks-nil i.trail i.trail_blank,
    )

skip_blanks-split : (sv : Text) → (bs : Text) × AllBlanks bs × (sv ≡ bs ++ skip_blanks sv)
unfolding skip_blanks
skip_blanks-split [] = ([], tt, refl)
skip_blanks-split (c ∷ sv) =
    let (bs, a, e) = skip_blanks-split sv in
    elim (Bool-cases (is_blank c)) [
      | inl b ↦ (c ∷ bs, (b, a), rw b (ap (◌∷◌ c) e))
      | inr b ↦ ([], tt, rw b refl)
    ]

read_sign-split :
    (sv : Text)
    → (s : Sign) × (sv ≡ sign_text s ++ (read_sign sv).1) × ((read_sign sv).0 ≡ is_negative s)
unfolding read_sign
read_sign-split [] = (bare, refl, refl)
read_sign-split (c ∷ sv) = elim (Bool-cases (c == b'-')) [
  | inl m ↦ (minus, rw m (ap (λ x. x ∷ sv) (ground arith)), rw m refl)
  | inr m ↦ elim (Bool-cases (c == b'+')) [
    | inl p ↦ (plus, rw (m, p) (ap (λ x. x ∷ sv) (ground arith)), rw (m, p) refl)
    | inr p ↦ (bare, rw (m, p) refl, rw (m, p) refl)
  ]
]

digits-split :
    (sv : Text)
    → (ds : Text) × (rest : Text) × AllDigits ds
      × (starts_with_digit rest ≡ false)
      × (sv ≡ ds ++ rest)
digits-split [] = ([], [], tt, refl, refl)
digits-split (c ∷ sv) =
    let (ds, rest, a, stops, e) = digits-split sv in
    elim (Bool-cases (is_digit c)) [
      | inl d ↦ (c ∷ ds, rest, (d, a), stops, ap (◌∷◌ c) e)
      | inr d ↦ ([], c ∷ sv, tt, d, refl)
    ]

nil-of_empty : (sv : Text) → is_empty sv ≡ true → sv ≡ []
nil-of_empty [] e = refl
nil-of_empty (c ∷ sv) e = absurd (ground arith)

starts-split :
    (ds rest : Text)
    → starts_with_digit rest ≡ false
    → starts_with_digit (ds ++ rest) ≡ true
    → starts_with_digit ds ≡ true
starts-split [] rest stops e = absurd (ground arith)
starts-split (c ∷ ds) rest stops e = e

-- A text that is read consists of blanks, a sign or none, digits and blanks, and the result is the
-- number that the digits denote, or the largest `int` where that is smaller, with the sign.
pub string_view_to_int-IsInt : (sv : Text) (r : ℤ) → string_view_to_int sv ≡ some r → IsInt sv r
unfolding string_view_to_int
string_view_to_int-IsInt sv r read =
    let (lead, lead_blank, e) = skip_blanks-split sv in
    let (s, f, negative) = read_sign-split (skip_blanks sv) in
    let unsigned = (read_sign (skip_blanks sv)).1 in
    let (ds, rest, digits, stops, g) = digits-split unsigned in
    let (trail, trail_blank, k) = skip_blanks-split rest in
    let parsed : parse_digits 0 unsigned ≡ (min (value 0 ds) int_max, rest) =
      ap (parse_digits 0) g ∙ parse_digits-min 0 ds rest (omega arith) digits stops in
    let result = with_sign (read_sign (skip_blanks sv)).0 (min (value 0 ds) int_max) in
    let read' : (if starts_with_digit unsigned && is_empty (skip_blanks rest)
          then some result
          else none)
        ≡ some r =
      sym (rw parsed refl) ∙ read in
    elim (Bool-cases (starts_with_digit unsigned && is_empty (skip_blanks rest))) [
      | inl ok ↦
          let ended : skip_blanks rest ≡ [] = nil-of_empty (skip_blanks rest) (ground arith) in
          let rest_trail : rest ≡ trail = k ∙ ap (◌++◌ trail) ended ∙ append-nil trail in
          let begun : starts_with_digit unsigned ≡ true = ground arith in
          record {
            lead = lead;
            sign = s;
            ds = ds;
            trail = trail;
            lead_blank = lead_blank;
            digits = digits;
            some_digit = starts-split ds rest stops (sym (ap starts_with_digit g) ∙ begun);
            trail_blank = trail_blank;
            text = e ∙ ap (◌++◌ lead) (f ∙ ap (◌++◌ (sign_text s)) (g ∙ ap (◌++◌ ds) rest_trail));
            number =
                let same : result ≡ r = ground arith in
                sym same ∙ ap (λ b. with_sign b (min (value 0 ds) int_max)) negative;
          }
      | inr bad ↦ absurd (ground arith)
    ]
