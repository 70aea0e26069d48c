-- ===== src/Processor.antt =====
-- src/matching/order_processor.cpp: the texts of an outbound report. A `char` array is the text
-- before its NUL, and a `uint8_t` length is written out modulo 2 ^ 8.
pub mod Lengths
pub mod Consume
pub mod Writable
pub mod Reference
pub mod Told
pub mod Handles
pub mod Run
pub mod Start
use flower_exchange.Base.{
  ℕ, zero, suc, ◌-◌, ◌%◌, ◌^◌, Option, none, some, [], ◌∷◌, length, ltb, if◌then◌else◌, ℤ, pos,
}
use flower_exchange.Types.{Text, ExecutionReport, copy_chars}
use flower_exchange.Messages.{OutboundReportMsg}
use flower_exchange.Types.Names.{exec_status_to_string}
use flower_exchange.Types.Format.{to_chars}

-- `copy_text(destination, destination_size, source)`: what the destination holds. The result of
-- the call is the length of that text.
unfoldable pub copy_text : ℕ → Option Text → Text
copy_text zero source = []
copy_text (suc max_copy) none = []
copy_text (suc max_copy) (some source) = copy_chars max_copy source

-- `format_order_id(order_id, order_id_size, id)` on a zeroed array.
unfoldable pub format_order_id : ℕ → ℕ → Text
format_order_id order_id_size id =
    if ltb order_id_size 5 then [] else elim (to_chars (order_id_size - 4) id) [
      | none ↦ []
      | some digits ↦ b'o' ∷ b'r' ∷ b'd' ∷ digits
    ]

-- `static_cast<uint8_t>(copy_text(...))`.
abbrev pub text_len : Text → ℕ
text_len text = length text % 2 ^ 8

unfoldable pub fill_outbound_fields :
    OutboundReportMsg → ExecutionReport → Option Text → ℤ → OutboundReportMsg
unfolding copy_text
fill_outbound_fields out report instrument_text side =
    let oid = copy_text 32 (some report.oid) in
    let coid = copy_text 64 (some report.coid) in
    let instrument = copy_text 32 instrument_text in
    let exec_status = copy_text 16 (some (exec_status_to_string report.status)) in
    let reason = copy_text 64 (some report.reason) in
    let timestamp = copy_text 20 (some report.timestamp) in
    record out {
      oid = oid;
      oid_len = text_len oid;
      coid = coid;
      coid_len = text_len coid;
      instrument = instrument;
      instrument_len = text_len instrument;
      side = side;
      exec_status = exec_status;
      exec_status_len = text_len exec_status;
      quantity = pos report.quantity;
      reason = reason;
      reason_len = text_len reason;
      timestamp = timestamp;
      timestamp_len = text_len timestamp;
    }
