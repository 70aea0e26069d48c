-- ===== src/Csv.antt =====
-- src/io/csv_reader.cpp, src/io/csv_reader.h: a row as its line and the places of its delimiters.
-- The line is what `std::getline` gives.
pub mod Split
pub mod Join
pub mod Range
use flower_exchange.Base.{
  ℕ, zero, suc, ◌-◌, ◌%◌, ◌^◌, ◌&&◌, ltb, Option, none, some, List, [], ◌∷◌, ◌++◌, length,
  get_elem?, take, drop, leb, ◌==◌, if◌then◌else◌, ◌>>=◌, ℤ, pos, negsuc,
}
use flower_exchange.Types.{Text}

pub record CsvRow : Type 0 where
  pub line : Text
  pub field_positions : List ℤ

-- `if (!line_.empty() && line_.back() == '\r') line_.pop_back();`
unfoldable pub drop_return : Text → Text
drop_return [] = []
drop_return (c ∷ []) = if c == 13 then [] else c ∷ []
drop_return (c ∷ d ∷ line) = c ∷ drop_return (d ∷ line)

-- `static_cast<int>` of a `std::size_t`.
abbrev pub to_int : ℕ → ℤ
to_int n = if ltb (n % 2 ^ 32) (2 ^ 31) then pos (n % 2 ^ 32) else negsuc (2 ^ 32 - 1 - n % 2 ^ 32)

-- The places of the commas from `at` on.
unfoldable pub commas : ℕ → Text → List ℤ
commas at [] = []
commas at (c ∷ line) =
    let rest = commas (suc at) line in if c == b',' then to_int at ∷ rest else rest

unfoldable pub read_next_row : Text → CsvRow
unfolding drop_return commas
read_next_row text =
    let line = drop_return text in
    record { line = line; field_positions = negsuc 0 ∷ commas 0 line ++ to_int (length line) ∷ [] }

abbrev pub size : CsvRow → ℕ
size row = length row.field_positions - 1

-- A place as an index of the line: a negative `int` becomes a large `std::size_t`.
abbrev pub place : ℤ → ℕ
place (pos n) = n
place (negsuc n) = 2 ^ 64 - 1 - n

-- The place behind a delimiter.
abbrev pub behind : ℤ → ℕ
behind (pos n) = suc n
behind (negsuc zero) = 0
behind (negsuc (suc n)) = 2 ^ 64 - 1 - n

-- The bytes from `start` to `finish`; a view that leaves the line is a fault.
abbrev pub view : Text → ℕ → ℕ → Option Text
view line start finish =
    if leb start finish && leb finish (length line)
    then some (take (finish - start) (drop start line))
    else none

-- `row[index]`: the field; `none` is the exception, or the fault of `view`, which takes a line so long
-- that a place wrapped.
unfoldable pub field : CsvRow → ℕ → Option Text
field row index = if leb (size row) index then none else (do
  before ← get_elem? row.field_positions index
  after ← get_elem? row.field_positions (suc index)
  view row.line (behind before) (place after))
