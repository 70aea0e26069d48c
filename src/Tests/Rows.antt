-- ===== src/Tests/Rows.antt =====
-- A report as a row of the output file.
use flower_exchange.Base.{◌≡◌, ◌≤◌, ◌++◌, refl, arith, true, some, [], ◌∷◌, length, pos}
use flower_exchange.Types.Format.{to_chars}
use flower_exchange.Messages.{OutboundReportMsg}
use flower_exchange.Processor.Lengths.{Fits, HasLengths}
use flower_exchange.Writer.{
  header, row_text, append_span, write_side_to_buffer, write_quantity_to_buffer, drain,
}
use flower_exchange.Writer.Rows.{row_text-length, ReadsBack, row_text-ReadsBack}
use flower_exchange.Writer.Drain.{rows, rows_fit, drain-rows}

abbrev filled : OutboundReportMsg
filled = record {
  oid = b'o' ∷ b'r' ∷ b'd' ∷ b'1' ∷ [];
  oid_len = 4;
  coid = b'x' ∷ [];
  coid_len = 1;
  instrument = b'R' ∷ b'o' ∷ b's' ∷ b'e' ∷ [];
  instrument_len = 4;
  side = pos 1;
  exec_status = b'F' ∷ b'i' ∷ b'l' ∷ b'l' ∷ [];
  exec_status_len = 4;
  quantity = pos 20;
  price_text = b'0' ∷ b'.' ∷ b'5' ∷ b'5' ∷ [];
  price_text_len = 4;
  reason = [];
  reason_len = 0;
  timestamp = b't' ∷ [];
  timestamp_len = 1;
  seq = 1;
}

filled-HasLengths : HasLengths filled
filled-HasLengths = record {
  oid = (omega arith, refl);
  coid = (omega arith, refl);
  instrument = (omega arith, refl);
  exec_status = (omega arith, refl);
  reason = (omega arith, refl);
  timestamp = (omega arith, refl);
}

filled-price : Fits 24 filled.price_text filled.price_text_len
filled-price = (omega arith, refl)

row_text-length_example : length (row_text filled) ≤ 286
row_text-length_example = row_text-length filled filled-HasLengths filled-price

row_text-ReadsBack_example : ReadsBack filled
row_text-ReadsBack_example = row_text-ReadsBack filled filled-HasLengths filled-price refl

filled-fits : rows_fit (filled ∷ filled ∷ []) ≡ true
unfolding row_text append_span write_side_to_buffer write_quantity_to_buffer to_chars
filled-fits = refl

drain-rows_example : drain (filled ∷ filled ∷ []) ≡ some (header ++ rows (filled ∷ filled ∷ []))
drain-rows_example = drain-rows (filled ∷ filled ∷ []) filled-fits
