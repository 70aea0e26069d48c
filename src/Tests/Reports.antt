-- ===== src/Tests/Reports.antt =====
-- The answers to a row: an empty report, and a refusal.
use flower_exchange.Base.{[], ◌∷◌}
use flower_exchange.Types.{empty_report}
use flower_exchange.Validator.{invalid_size}
use flower_exchange.Processor.Consume.{emit_report, reject}
use flower_exchange.Processor.Writable.{IsWritable, messages-IsWritable}
use flower_exchange.Tests.Values.{hundredths}
use flower_exchange.Tests.Turns.{now, row}

messages-IsWritable_example :
    IsWritable (emit_report 1 (empty_report (b'2' ∷ b'0' ∷ [])))
    × IsWritable (reject hundredths now (b't' ∷ []) (b'o' ∷ b'1' ∷ []) row invalid_size)
messages-IsWritable_example =
    messages-IsWritable hundredths now 1 (empty_report (b'2' ∷ b'0' ∷ [])) (b't' ∷ [])
      (b'o' ∷ b'1' ∷ []) row invalid_size
