-- ===== src/Processor/Reference.antt =====
-- src/matching/order_processor.cpp: the reference for `consume`: the order that a row makes and the
-- messages that answer it, told field by field.
use flower_exchange.Base.{
  ℕ, zero, suc, ◌-◌, ◌%◌, ◌^◌, Option, none, some, [], ◌∷◌, length, take, ◌==◌, if◌then◌else◌, ℤ,
  pos, negsuc, pos_part,
}
use flower_exchange.Types.{
  Text, Side, buy, sell, InstrumentType, rose, lavender, lotus, tulip, orchid, count, ExecStatus,
  new, rejected, fill, pfill, Order, ExecutionReport,
}
use flower_exchange.Types.Names.{parse_instrument}
use flower_exchange.Types.Format.{to_chars, format_ticks_to_buffer}
use flower_exchange.Doubles.{Doubles}
use flower_exchange.Doubles.Ticks.{format_price_to_buffer}
use flower_exchange.Validator.{
  Reason, invalid_instrument, invalid_side, invalid_size, invalid_price,
}
use flower_exchange.Messages.{InboundOrderMsg, OutboundReportMsg}

-- The bytes before the first NUL.
unfoldable pub before_nul : Text → Text
before_nul [] = []
before_nul (c ∷ s) = let rest = before_nul s in if c == 0 then [] else c ∷ rest

-- What a `char` array of `size` bytes takes of a text.
unfoldable pub held : ℕ → Text → Text
held size s = take (size - 1) (before_nul s)

abbrev pub given : Option Text → Text
given none = []
given (some text) = text

-- "ord", and the number in decimal.
abbrev pub order_number : ℕ → Text
order_number number = elim (to_chars 28 number) [
  | none ↦ []
  | some digits ↦ b'o' ∷ b'r' ∷ b'd' ∷ digits
]

-- 1 buys, and 2 sells.
abbrev pub side_meant : ℤ → Side
side_meant (pos zero) = sell
side_meant (pos (suc zero)) = buy
side_meant (pos (suc (suc n))) = sell
side_meant (negsuc n) = sell

abbrev pub side_number : Side → ℤ
side_number buy = pos 1
side_number sell = pos 2

abbrev pub name_shown : InstrumentType → Text
name_shown rose = b'R' ∷ b'o' ∷ b's' ∷ b'e' ∷ []
name_shown lavender = b'L' ∷ b'a' ∷ b'v' ∷ b'e' ∷ b'n' ∷ b'd' ∷ b'e' ∷ b'r' ∷ []
name_shown lotus = b'L' ∷ b'o' ∷ b't' ∷ b'u' ∷ b's' ∷ []
name_shown tulip = b'T' ∷ b'u' ∷ b'l' ∷ b'i' ∷ b'p' ∷ []
name_shown orchid = b'O' ∷ b'r' ∷ b'c' ∷ b'h' ∷ b'i' ∷ b'd' ∷ []
name_shown count = b'U' ∷ b'N' ∷ b'K' ∷ b'N' ∷ b'O' ∷ b'W' ∷ b'N' ∷ []

-- "Reject".
abbrev pub refused_shown : Text
refused_shown = b'R' ∷ b'e' ∷ b'j' ∷ b'e' ∷ b'c' ∷ b't' ∷ []

abbrev pub status_shown : ExecStatus → Text
status_shown new = b'N' ∷ b'e' ∷ b'w' ∷ []
status_shown rejected = refused_shown
status_shown fill = b'F' ∷ b'i' ∷ b'l' ∷ b'l' ∷ []
status_shown pfill = b'P' ∷ b'f' ∷ b'i' ∷ b'l' ∷ b'l' ∷ []

abbrev pub reason_shown : Reason → Text
reason_shown invalid_instrument =
    b'I' ∷ b'n' ∷ b'v' ∷ b'a' ∷ b'l' ∷ b'i' ∷ b'd' ∷ b' ' ∷ b'i' ∷ b'n' ∷ b's' ∷ b't' ∷ b'r' ∷ b'u'
    ∷ b'm' ∷ b'e' ∷ b'n' ∷ b't' ∷ []
reason_shown invalid_side =
    b'I' ∷ b'n' ∷ b'v' ∷ b'a' ∷ b'l' ∷ b'i' ∷ b'd' ∷ b' ' ∷ b's' ∷ b'i' ∷ b'd' ∷ b'e' ∷ []
reason_shown invalid_size =
    b'I' ∷ b'n' ∷ b'v' ∷ b'a' ∷ b'l' ∷ b'i' ∷ b'd' ∷ b' ' ∷ b's' ∷ b'i' ∷ b'z' ∷ b'e' ∷ []
reason_shown invalid_price =
    b'I' ∷ b'n' ∷ b'v' ∷ b'a' ∷ b'l' ∷ b'i' ∷ b'd' ∷ b' ' ∷ b'p' ∷ b'r' ∷ b'i' ∷ b'c' ∷ b'e' ∷ []

-- A message with the texts that are given, each beside its length.
abbrev pub message_with :
    (oid coid instrument exec_status price_text reason timestamp : Text)
    → (side quantity : ℤ) (seq : ℕ) → OutboundReportMsg
message_with oid coid instrument exec_status price_text reason timestamp side quantity seq =
    record {
      oid = oid;
      oid_len = length oid;
      coid = coid;
      coid_len = length coid;
      instrument = instrument;
      instrument_len = length instrument;
      side = side;
      exec_status = exec_status;
      exec_status_len = length exec_status;
      quantity = quantity;
      price_text = price_text;
      price_text_len = length price_text;
      reason = reason;
      reason_len = length reason;
      timestamp = timestamp;
      timestamp_len = length timestamp;
      seq = seq;
    }

-- The message for a report on an order of the row `seq`.
unfoldable pub answer : ℕ → ExecutionReport → OutboundReportMsg
answer seq report =
    message_with (held 32 report.oid) (held 64 report.coid) (name_shown report.instrument)
      (status_shown report.status) (given (format_ticks_to_buffer report.price 24))
      (held 64 report.reason) (held 20 report.timestamp) (side_number report.side)
      (pos report.quantity) seq

-- The time of a refusal: the matcher's, or the system clock's where that is empty.
abbrev pub time_or : Text → Text → Text
time_or now [] = now
time_or now (c ∷ text) = if c == 0 then now else c ∷ text

module _ (doubles : Doubles) where
  open doubles use {div_double, llround, hundredth}

  -- The order that a row makes which is not refused: its price is the number of hundredths, rounded.
  unfoldable pub made : InboundOrderMsg doubles → ℕ → Order
  made message number = record {
    oid = held 32 (order_number number);
    coid = held 64 message.coid;
    instrument = (parse_instrument message.instrument count).1;
    side = side_meant message.side;
    price = pos_part (llround (div_double message.price hundredth));
    quantity = pos_part message.quantity;
    next = none;
  }

module _ (doubles : Doubles) (clock : ℕ → Text) where
  -- The message for a row that is refused: its own fields, and the reason.
  unfoldable pub refusal : Text → ℕ → InboundOrderMsg doubles → Reason → OutboundReportMsg
  refusal timestamp number message reason =
      message_with (held 32 (order_number number)) (held 64 message.coid)
        (held 32 message.instrument) refused_shown
        (given (format_price_to_buffer doubles message.price 24)) (reason_shown reason)
        (held 20 (time_or (clock 0) timestamp)) message.side
        (pos (pos_part message.quantity % 2 ^ 16)) message.seq
