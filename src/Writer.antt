-- ===== src/Writer.antt =====
-- src/io/csv_report_writer.cpp: a report as a row of the output file, and the batches of `drain`. The
-- file is the text that has been written to it; opening it is not modelled.
pub mod Numbers
pub mod Rows
pub mod Answers
pub mod Drain
use flower_exchange.Base.{
  ℕ, zero, suc, ◌-◌, ◌+◌, ◌^◌, ◌*◌, Option, none, some, List, [], ◌∷◌, ◌++◌, ◌&&◌, length, take,
  replicate, leb, ltb, ◌==◌, if◌then◌else◌, ◌>>=◌, ℤ, pos, negsuc, eqb_ℤ,
}
use flower_exchange.Types.{Text, side_code, buy, sell, max_quantity}
use flower_exchange.Types.Format.{to_chars}
use flower_exchange.Messages.{OutboundReportMsg}

-- `std::to_chars(first, first + size, n)` of a signed number.
unfoldable pub to_chars_int : ℕ → ℤ → Option Text
to_chars_int size (pos n) = to_chars size n
to_chars_int size (negsuc n) =
    if size == 0 then none else (do digits ← to_chars (size - 1) (suc n); some (b'-' ∷ digits))

-- What a failed `to_chars` leaves.
abbrev pub or_zero : Option Text → Text
or_zero none = b'0' ∷ []
or_zero (some text) = text

-- `kQuantityText[i]`, with its length: an array of 5 with room for the NUL.
abbrev pub quantity_text : ℕ → Text
quantity_text i = or_zero (to_chars 4 i)

-- The text that the call writes to the buffer; its result is the length.
unfoldable pub write_side_to_buffer : ℤ → Text
unfolding to_chars_int
write_side_to_buffer side =
    if eqb_ℤ side (pos (side_code buy))
    then b'1' ∷ []
    else if eqb_ℤ side (pos (side_code sell))
    then b'2' ∷ []
    else or_zero (to_chars_int 16 side)

unfoldable pub write_quantity_to_buffer : ℤ → Text
unfolding to_chars_int
write_quantity_to_buffer (pos quantity) =
    if leb quantity max_quantity
    then quantity_text quantity
    else or_zero (to_chars_int 16 (pos quantity))
write_quantity_to_buffer (negsuc n) = or_zero (to_chars_int 16 (negsuc n))

-- `append_span`: `length` bytes of a zeroed array that holds `source`.
unfoldable pub append_span : Text → Text → ℕ → Text
append_span out source len = out ++ take len (source ++ replicate (len - length source) 0)

abbrev pub put : Text → ℕ → Text
put out c = out ++ c ∷ []

-- What `row` holds up to `out` in the end.
unfoldable pub row_text : OutboundReportMsg → Text
unfolding append_span write_side_to_buffer write_quantity_to_buffer
row_text message =
    let out = put (append_span [] message.oid message.oid_len) b',' in
    let out = put (append_span out message.coid message.coid_len) b',' in
    let out = put (append_span out message.instrument message.instrument_len) b',' in
    let out = put (out ++ write_side_to_buffer message.side) b',' in
    let out = put (append_span out message.exec_status message.exec_status_len) b',' in
    let out = put (out ++ write_quantity_to_buffer message.quantity) b',' in
    let out = put (append_span out message.price_text message.price_text_len) b',' in
    let out = put (append_span out message.reason message.reason_len) b',' in
    put (append_span out message.timestamp message.timestamp_len) 10

-- `row` has 320 bytes; a row that is longer runs over its end, which is a fault.
unfoldable pub append_csv_row : Text → OutboundReportMsg → Option Text
unfolding row_text
append_csv_row destination message =
    let row = row_text message in if ltb 320 (length row) then none else some (destination ++ row)

-- "Order ID,Client Order Id,Instrument,Side,Exec Status,Quantity,Price,Reason,Timestamp\n"
abbrev pub header : Text
header =
    b'O' ∷ b'r' ∷ b'd' ∷ b'e' ∷ b'r' ∷ b' ' ∷ b'I' ∷ b'D' ∷ b',' ∷ b'C' ∷ b'l' ∷ b'i' ∷ b'e' ∷ b'n'
    ∷ b't' ∷ b' ' ∷ b'O' ∷ b'r' ∷ b'd' ∷ b'e' ∷ b'r' ∷ b' ' ∷ b'I' ∷ b'd' ∷ b',' ∷ b'I' ∷ b'n'
    ∷ b's' ∷ b't' ∷ b'r' ∷ b'u' ∷ b'm' ∷ b'e' ∷ b'n' ∷ b't' ∷ b',' ∷ b'S' ∷ b'i' ∷ b'd' ∷ b'e'
    ∷ b',' ∷ b'E' ∷ b'x' ∷ b'e' ∷ b'c' ∷ b' ' ∷ b'S' ∷ b't' ∷ b'a' ∷ b't' ∷ b'u' ∷ b's' ∷ b','
    ∷ b'Q' ∷ b'u' ∷ b'a' ∷ b'n' ∷ b't' ∷ b'i' ∷ b't' ∷ b'y' ∷ b',' ∷ b'P' ∷ b'r' ∷ b'i' ∷ b'c'
    ∷ b'e' ∷ b',' ∷ b'R' ∷ b'e' ∷ b'a' ∷ b's' ∷ b'o' ∷ b'n' ∷ b',' ∷ b'T' ∷ b'i' ∷ b'm' ∷ b'e'
    ∷ b's' ∷ b't' ∷ b'a' ∷ b'm' ∷ b'p' ∷ 10 ∷ []

pub record Draining : Type 0 where
  pub write_batch : Text
  pub file : Text

-- Where a batch is written: `4 * 1024 * 1024`.
abbrev pub batch_limit : ℕ
batch_limit = 4 * 1024 * 1024

-- The body of the loop behind a successful `pop`.
unfoldable pub write_report : OutboundReportMsg → Draining → Option Draining
unfolding append_csv_row
write_report message s = do
  write_batch ← append_csv_row s.write_batch message
  some (
      if leb batch_limit (length write_batch)
      then record { write_batch = []; file = s.file ++ write_batch }
      else record s { write_batch = write_batch })

unfoldable pub write_reports : List OutboundReportMsg → Draining → Option Draining
unfolding write_report
write_reports [] s = some s
write_reports (message ∷ messages) s = do s ← write_report message s; write_reports messages s

-- What the file holds after the loop: the last batch is written, and the file is closed.
unfoldable pub close : Draining → Text
close s = if length s.write_batch == 0 then s.file else s.file ++ s.write_batch

abbrev pub start_draining : Draining
start_draining = record { write_batch = header; file = [] }

-- `drain` on the messages that it pops before the queue is empty and the matcher is done: what is
-- written to the file.
unfoldable pub drain : List OutboundReportMsg → Option Text
unfolding write_reports close
drain messages = do s ← write_reports messages start_draining; some (close s)
