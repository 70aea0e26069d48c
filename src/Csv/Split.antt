-- ===== src/Csv/Split.antt =====
-- src/io/csv_reader.cpp: a line split at its commas, and the row by the places of its delimiters.
use flower_exchange.Base.{
  ℕ, zero, suc, ◌+◌, ◌-◌, ◌%◌, ◌^◌, ◌<◌, ◌≤◌, ltb, ◌≡◌, refl, sym, ap, ◌∙◌, arith, inl, inr, true,
  false, Option, none, some, List, [], ◌∷◌, ◌++◌, length, get_elem?, take, drop, leb, ◌==◌,
  if◌then◌else◌, Bool-cases, ◌>>=◌, ℤ, pos, negsuc, length-append,
}
use Prim.Native.Nat.add
use mathlib.Core.List.{append_assoc, append-nil}
use flower_exchange.Types.{Text}
use flower_exchange.Csv.{
  CsvRow, read_next_row, drop_return, to_int, commas, size, field, behind, place, view,
}

-- The first field grows at its front.
abbrev pub push : ℕ → List Text → List Text
push c [] = (c ∷ []) ∷ []
push c (f ∷ fs) = (c ∷ f) ∷ fs

abbrev pub split : Text → List Text
split [] = [] ∷ []
split (c ∷ line) = let rest = split line in if c == b',' then [] ∷ rest else push c rest

abbrev pub join : List Text → Text
join [] = []
join (f ∷ []) = f
join (f ∷ g ∷ fs) = f ++ b',' ∷ join (g ∷ fs)

drop-add : {A : Type 0} (n m : ℕ) (xs : List A) → drop (n + m) xs ≡ drop m (drop n xs)
drop-add zero m xs = rw (add.zero m)
drop-add (suc n) zero [] = rw (add.suc n 0)
drop-add (suc n) (suc m) [] = rw (add.suc n (suc m))
drop-add (suc n) m (x ∷ xs) = rw (add.suc n m) (drop-add n m xs)

pub take-append : {A : Type 0} (xs ys : List A) → take (length xs) (xs ++ ys) ≡ xs
take-append [] ys = refl
take-append (x ∷ xs) ys = ap (λ r. x ∷ r) (take-append xs ys)

drop-append : {A : Type 0} (xs ys : List A) → drop (length xs) (xs ++ ys) ≡ ys
drop-append [] ys = refl
drop-append (x ∷ xs) ys = drop-append xs ys

prepend : Text → List Text → List Text
prepend acc [] = acc ∷ []
prepend acc (f ∷ fs) = (acc ++ f) ∷ fs

prepend-push :
    (acc : Text) (c : ℕ) (fs : List Text) → prepend acc (push c fs) ≡ prepend (acc ++ c ∷ []) fs
unfolding prepend
prepend-push acc c [] = refl
prepend-push acc c (f ∷ fs) = ap (λ r. r ∷ fs) (sym (append_assoc acc (c ∷ []) f))

-- The places of the commas from `at` on, as they are.
marks : ℕ → Text → List ℤ
marks at [] = []
marks at (c ∷ line) = let rest = marks (suc at) line in if c == b',' then pos at ∷ rest else rest

to_int-small : (n : ℕ) → n < 2 ^ 31 → to_int n ≡ pos n
to_int-small n small =
    let same : n % 2 ^ 32 ≡ n = omega (arith, small) in
    let below : ltb n (2 ^ 31) ≡ true = ground arith in rw (same, below) refl

commas-marks : (at : ℕ) (line : Text) → at + length line < 2 ^ 31 → commas at line ≡ marks at line
unfolding commas marks
commas-marks at [] small = refl
commas-marks at (c ∷ line) small =
    let rest = commas-marks (suc at) line (omega (arith, small)) in
    let here = to_int-small at (omega (arith, small)) in
    elim (Bool-cases (c == b',')) [
      | inl comma ↦ rw (comma, here, rest) refl
      | inr other ↦ rw (other, rest) refl
    ]

-- The delimiters of a line that starts at `at`.
delimiters : ℕ → Text → List ℤ
delimiters at line = marks at line ++ (pos (at + length line) ∷ [])

delimiters-nil : (at : ℕ) → delimiters at [] ≡ pos at ∷ []
unfolding delimiters marks
delimiters-nil at = let same : at + 0 ≡ at = omega arith in rw same

delimiters-comma :
    (at c : ℕ) (line : Text)
    → c == b',' ≡ true
    → delimiters at (c ∷ line) ≡ pos at ∷ delimiters (suc at) line
unfolding delimiters marks
delimiters-comma at c line e =
    let same : at + suc (length line) ≡ suc at + length line = omega arith in rw (e, same) refl

delimiters-other :
    (at c : ℕ) (line : Text)
    → c == b',' ≡ false
    → delimiters at (c ∷ line) ≡ delimiters (suc at) line
unfolding delimiters marks
delimiters-other at c line e =
    let same : at + suc (length line) ≡ suc at + length line = omega arith in rw (e, same) refl

pub split-comma : (c : ℕ) (line : Text) → c == b',' ≡ true → split (c ∷ line) ≡ [] ∷ split line
split-comma c line e = rw e refl

pub split-other : (c : ℕ) (line : Text) → c == b',' ≡ false → split (c ∷ line) ≡ push c (split line)
split-other c line e = rw e refl

-- A field between two delimiters, without the test of the index.
piece : Text → List ℤ → ℕ → Option Text
piece full places i = do
  before ← get_elem? places i
  after ← get_elem? places (suc i)
  view full (behind before) (place after)

piece-first :
    (full acc rest : Text) (at : ℕ) (before : ℤ)
    → drop (behind before) full ≡ acc ++ rest
    → at ≡ behind before + length acc
    → at ≤ length full
    → (places : List ℤ) → piece full (before ∷ pos at ∷ places) 0 ≡ some acc
unfolding piece
piece-first full acc rest at before e here inside places =
    let l : at - behind before ≡ length acc = omega (arith, here) in
    let ordered : leb (behind before) at ≡ true = ground (arith, here) in
    let bounded : leb at (length full) ≡ true = ground (arith, inside) in
    rw (ordered, bounded, e, l, take-append acc rest)

prepend-split : (line : Text) → prepend [] (split line) ≡ split line
unfolding prepend
prepend-split [] = refl
prepend-split (c ∷ line) = elim (Bool-cases (c == b',')) [
  | inl comma ↦ rw (split-comma c line comma) refl
  | inr other ↦ rw (split-other c line other) (pushed (split line))
]
  where
    pushed : (fs : List Text) → prepend [] (push c fs) ≡ push c fs
    pushed [] = refl
    pushed (f ∷ fs) = refl

-- The text behind a field and its comma.
drop-past :
    (full acc line : Text) (at c : ℕ) (before : ℤ)
    → drop (behind before) full ≡ acc ++ c ∷ line
    → at ≡ behind before + length acc
    → drop (suc at) full ≡ line
drop-past full acc line at c before e here =
    let past : suc at ≡ behind before + suc (length acc) = omega (arith, here) in
    rw (past, drop-add (behind before) (suc (length acc)) full, e) (behind_field acc)
  where
    behind_field : (xs : Text) → drop (suc (length xs)) (xs ++ c ∷ line) ≡ line
    behind_field [] = refl
    behind_field (x ∷ xs) = behind_field xs

piece-comma :
    (full acc rest : Text) (at : ℕ) (before : ℤ) (places : List ℤ) (fields : List Text)
    → drop (behind before) full ≡ acc ++ rest
    → at ≡ behind before + length acc
    → at ≤ length full
    → ((j : ℕ) → piece full (pos at ∷ places) j ≡ get_elem? fields j)
    → (i : ℕ) → piece full (before ∷ pos at ∷ places) i ≡ get_elem? (prepend acc ([] ∷ fields)) i
unfolding prepend piece
piece-comma full acc rest at before places fields e here inside later zero =
    piece-first full acc rest at before e here inside places ∙ ap some (sym (append-nil acc))
piece-comma full acc rest at before places fields e here inside later (suc j) = later j

piece-split :
    (full line : Text) (at : ℕ) (before : ℤ) (acc : Text)
    → drop (behind before) full ≡ acc ++ line
    → at ≡ behind before + length acc
    → at + length line ≡ length full
    → (i : ℕ) → piece full (before ∷ delimiters at line) i ≡ get_elem? (prepend acc (split line)) i
unfolding prepend piece
piece-split full [] at before acc e here whole zero = rw (delimiters-nil at) (
    piece-first full acc [] at before e here (omega (arith, whole)) []
    ∙ ap some (sym (append-nil acc)))
piece-split full [] at before acc e here whole (suc zero) = rw (delimiters-nil at) refl
piece-split full [] at before acc e here whole (suc (suc i)) = rw (delimiters-nil at) refl
piece-split full (c ∷ line) at before acc e here whole i = elim (Bool-cases (c == b',')) [
  | inl comma ↦
      rw (delimiters-comma at c line comma, split-comma c line comma)
        (piece-comma full acc (c ∷ line) at before (delimiters (suc at) line) (split line) e here
          (omega (arith, whole))
          (λ j.
            piece-split full line (suc at) (pos at) [] (drop-past full acc line at c before e here)
              (omega arith) (omega (arith, whole)) j
            ∙ ap (λ fs. get_elem? fs j) (prepend-split line))
          i)
  | inr other ↦
      rw
        (
          delimiters-other at c line other,
          split-other c line other,
          prepend-push acc c (split line),
        )
        (piece-split full line (suc at) before (acc ++ c ∷ [])
          (e ∙ sym (append_assoc acc (c ∷ []) line))
          (omega (arith, here, length-append acc (c ∷ []))) (omega (arith, whole)) i)
]

get_elem?-past : (xs : List ℤ) (i : ℕ) → leb (length xs - 1) i ≡ true → get_elem? xs (suc i) ≡ none
get_elem?-past [] i h = refl
get_elem?-past (x ∷ []) i h = refl
get_elem?-past (x ∷ y ∷ xs) zero h = absurd (ground arith)
get_elem?-past (x ∷ y ∷ xs) (suc i) h = get_elem?-past (y ∷ xs) i (ground arith)

field-piece : (row : CsvRow) (i : ℕ) → field row i ≡ piece row.line row.field_positions i
unfolding field piece
field-piece row i = elim (Bool-cases (leb (size row) i)) [
  | inl out ↦
      rw (out, get_elem?-past row.field_positions i out)
        (bind_none (get_elem? row.field_positions i))
  | inr has ↦ rw has refl
]
  where
    no_place : Option ℤ
    no_place = none

    bind_none :
        (o : Option ℤ)
        → none ≡ (do before ← o; after ← no_place; view row.line (behind before) (place after))
    bind_none none = refl
    bind_none (some before) = refl

drop_return-length : (text : Text) → length (drop_return text) ≤ length text
unfolding drop_return
drop_return-length [] = omega arith
drop_return-length (c ∷ []) = elim (Bool-cases (c == 13)) [
  | inl ends ↦ rw ends (omega arith)
  | inr other ↦ rw other (omega arith)
]
drop_return-length (c ∷ d ∷ text) = omega (arith, drop_return-length (d ∷ text))

-- For a text shorter than 2 ^ 31: the field at an index is that of the line split at its commas, and
-- out of range exactly where that has no such field.
pub field-split :
    (text : Text) (i : ℕ)
    → length text < 2 ^ 31
    → field (read_next_row text) i ≡ get_elem? (split (drop_return text)) i
unfolding read_next_row delimiters
field-split text i small =
    let shorter = drop_return-length text in
    let from_start : 0 + length (drop_return text) ≡ length (drop_return text) = omega arith in
    let places = commas-marks 0 (drop_return text) (omega (arith, small, shorter)) in
    let end = to_int-small (length (drop_return text)) (omega (arith, small, shorter)) in
    field-piece (read_next_row text) i
    ∙ ap
        (λ ps.
          piece (drop_return text) (negsuc 0 ∷ ps ++ (to_int (length (drop_return text)) ∷ [])) i)
        places
    ∙ ap (λ z. piece (drop_return text) (negsuc 0 ∷ marks 0 (drop_return text) ++ (z ∷ [])) i) end
    ∙ ap (λ n. piece (drop_return text) (negsuc 0 ∷ marks 0 (drop_return text) ++ (pos n ∷ [])) i)
        (sym from_start)
    ∙ piece-split (drop_return text) (drop_return text) 0 (negsuc 0) [] refl refl from_start i
    ∙ ap (λ fs. get_elem? fs i) (prepend-split (drop_return text))
