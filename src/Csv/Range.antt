-- ===== src/Csv/Range.antt =====
-- src/io/csv_reader.cpp: `CSVIterator` and `CSVRange`. A stream is the lines that `std::getline` still
-- gives; `none` for it is the null pointer.
use flower_exchange.Base.{
  ℕ, zero, suc, ◌≡◌, refl, Bool, true, false, Option, none, some, List, [], ◌∷◌, length, map,
  if◌then◌else◌, ◌>>=◌,
}
use flower_exchange.Types.{Text}
use flower_exchange.Csv.{CsvRow, read_next_row}

pub record CsvIterator : Type 0 where
  pub stream : Option (List Text)
  pub row : CsvRow

-- `operator++`. At the end of the stream the row is not looked at any more, and is kept here.
unfoldable pub advance : CsvIterator → CsvIterator
advance it = elim it.stream [
  | none ↦ it
  | some [] ↦ record it { stream = none }
  | some (line ∷ lines) ↦ record { stream = some lines; row = read_next_row line }
]

abbrev pub is_null : Option (List Text) → Bool
is_null none = true
is_null (some lines) = false

-- `operator==` on two different iterators.
unfoldable pub equals : CsvIterator → CsvIterator → Bool
equals it rhs = if is_null it.stream then is_null rhs.stream else false

abbrev pub empty_row : CsvRow
empty_row = record { line = []; field_positions = [] }

-- `CSVRange(stream).begin()` on a stream that is good.
unfoldable pub begin : List Text → CsvIterator
unfolding advance
begin lines = advance (record { stream = some lines; row = empty_row })

-- `CSVRange::end()`.
abbrev pub end : CsvIterator
end = record { stream = none; row = empty_row }

-- The rows that `for (const CSVRow &row : CSVRange(file))` visits; `none` if the fuel is used up.
unfoldable pub rows_from : ℕ → CsvIterator → Option (List CsvRow)
rows_from zero it = none
rows_from (suc fuel) it =
    let later = rows_from fuel (advance it) in
    if equals it end then some [] else (do rows ← later; some (it.row ∷ rows))

rows_from-rest :
    (line : Text) (lines : List Text)
    → rows_from
        (suc (length (line ∷ lines)))
        (record { stream = some lines; row = read_next_row line })
      ≡ some (map read_next_row (line ∷ lines))
unfolding rows_from advance equals
rows_from-rest line [] = refl
rows_from-rest line (next ∷ lines) = rw (rows_from-rest next lines) refl

-- On a stream of `n` lines the loop ends within `n + 1` tests, having visited the row of each line,
-- in order.
pub rows_from-begin :
    (lines : List Text)
    → rows_from (suc (length lines)) (begin lines) ≡ some (map read_next_row lines)
unfolding begin rows_from advance equals
rows_from-begin [] = refl
rows_from-begin (line ∷ lines) = rows_from-rest line lines
