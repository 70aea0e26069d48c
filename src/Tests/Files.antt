-- ===== src/Tests/Files.antt =====
-- A file of a header and two rows, one of which lacks fields, from its lines to its reports.
use flower_exchange.Base.{
  ◌≡◌, ◌++◌, refl, arith, true, some, [], ◌∷◌, List, map, length, suc, get_elem?,
}
use flower_exchange.Types.{Text, copy_chars}
use flower_exchange.Types.Int.{
  string_view_to_int, skip_blanks, parse_digits, read_sign, skip_digits,
}
use flower_exchange.Doubles.Parse.{
  string_view_to_double, read_whole, read_point, read_fraction, read_scale, read_exponent,
}
use flower_exchange.Csv.{CsvRow, read_next_row, drop_return, commas, field}
use flower_exchange.Csv.Split.{split, field-split}
use flower_exchange.Csv.Range.{rows_from, begin, rows_from-begin}
use flower_exchange.Producer.{read_fields, copy_view}
use flower_exchange.Producer.Laws.{ends, Produces, produce-Produces}
use flower_exchange.Processor.Consume.{new_processor}
use flower_exchange.Pipeline.{Capacities, Pipeline, process_file, here}
use flower_exchange.Pipeline.Exit.{Exits, process_file-Exits}
use flower_exchange.Pipeline.Progress.{Finishes, process_file-Finishes, GoesOn, process_file-GoesOn}
use flower_exchange.Tests.Values.{hundredths}
use flower_exchange.Tests.Turns.{hundredths-laws, now}

-- "x,Rose,1,20,0.55"
abbrev order_line : Text
order_line =
    b'x' ∷ b',' ∷ b'R' ∷ b'o' ∷ b's' ∷ b'e' ∷ b',' ∷ b'1' ∷ b',' ∷ b'2' ∷ b'0' ∷ b',' ∷ b'0' ∷ b'.'
    ∷ b'5' ∷ b'5' ∷ []

-- A header, a short row, and the order with a carriage return.
abbrev lines : List Text
lines = (b'h' ∷ []) ∷ (b'y' ∷ b',' ∷ []) ∷ (order_line ++ (13 ∷ [])) ∷ []

field-split_example :
    field (read_next_row (order_line ++ (13 ∷ []))) 3
    ≡ get_elem? (split (drop_return (order_line ++ (13 ∷ [])))) 3
field-split_example = field-split (order_line ++ (13 ∷ [])) 3 (omega arith)

rows_from-begin_example :
    rows_from (suc (length lines)) (begin lines) ≡ some (map read_next_row lines)
rows_from-begin_example = rows_from-begin lines

abbrev input : List CsvRow
input = map read_next_row lines

produce-Produces_example : Produces hundredths input
produce-Produces_example = produce-Produces hundredths input (omega arith)

input-readable : ends hundredths input ≡ true
unfolding read_fields read_next_row field drop_return commas copy_view copy_chars string_view_to_int
    skip_blanks parse_digits read_sign skip_digits string_view_to_double read_whole read_point
    read_fraction read_scale read_exponent
input-readable = refl

abbrev small_queues : Capacities
small_queues = record { inbound_capacity = 1; outbound_capacity = 1 }

abbrev started : Pipeline hundredths now
started = process_file hundredths now input new_processor

process_file-GoesOn_example : GoesOn hundredths hundredths-laws now small_queues started
process_file-GoesOn_example =
    process_file-GoesOn hundredths hundredths-laws now small_queues input started (omega arith)
      input-readable (omega arith) (omega arith) here

finished : Finishes hundredths hundredths-laws now small_queues started
finished =
    process_file-Finishes hundredths hundredths-laws now small_queues input started (omega arith)
      input-readable (omega arith) (omega arith) here

process_file-Finishes_example : Finishes hundredths hundredths-laws now small_queues started
process_file-Finishes_example =
    process_file-Finishes hundredths hundredths-laws now small_queues input started (omega arith)
      input-readable (omega arith) (omega arith) here

process_file-Exits_example :
    Exits hundredths hundredths-laws now input finished.0.order_processor finished.2.0
process_file-Exits_example =
    process_file-Exits hundredths hundredths-laws now small_queues input finished.0 finished.2.0
      (omega arith) input-readable finished.1 finished.2.1
