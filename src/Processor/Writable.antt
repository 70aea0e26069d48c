-- ===== src/Processor/Writable.antt =====
-- src/matching/order_processor.cpp: the lengths of the texts of the messages that leave the processor.
use flower_exchange.Base.{
  ℕ, ◌+◌, ◌-◌, ◌%◌, ◌/◌, ◌^◌, ◌<◌, ◌≡◌, refl, subst, arith, inl, inr, not, ◌&&◌, ◌||◌, Option, none,
  some, [], ◌∷◌, ◌++◌, length, ltb, leb, ◌==◌, Bool-cases, Option-cases, length-append, ℤ, pos,
  negsuc,
}
use flower_exchange.Types.{Text, PriceTick, ExecutionReport}
use flower_exchange.Types.Format.{to_chars, format_ticks_to_buffer}
use flower_exchange.Doubles.{Doubles}
use flower_exchange.Doubles.Ticks.{
  sign_of, magnitude, double_to_ticks, format_cents, format_signed, format_price_to_buffer,
}
use flower_exchange.Messages.{InboundOrderMsg, OutboundReportMsg, empty_outbound}
use flower_exchange.Validator.{Reason}
use flower_exchange.Processor.{text_len}
use flower_exchange.Processor.Lengths.{Fits, HasLengths, fill_outbound_fields-HasLengths}
use flower_exchange.Processor.Consume.{text_of, outbound, emit_report, reject}

-- The text leaves room for its NUL.
FitsIn : ℕ → Option Text → Type 0
FitsIn size none = Unit {0}
FitsIn size (some text) = length text < size

cents-length : (text : Text) (a b : ℕ) → length (text ++ b'.' ∷ a ∷ b ∷ []) ≡ length text + 3
cents-length text a b = length-append text (b'.' ∷ a ∷ b ∷ [])

format_ticks-FitsIn :
    (ticks : PriceTick) (size : ℕ) → FitsIn size (format_ticks_to_buffer ticks size)
unfolding format_ticks_to_buffer FitsIn
format_ticks-FitsIn ticks size = elim (Bool-cases (ltb size 5)) [
  | inl small ↦ rw small tt
  | inr enough ↦ elim (Option-cases (to_chars size (ticks / 100))) [
    | inl failed ↦ rw (enough, failed) tt
    | inr (digits, e) ↦ elim (Bool-cases (ltb size (length digits + 4))) [
      | inl over ↦ rw (enough, e, over) tt
      | inr fits ↦
          rw (enough, e, fits)
            (let n = cents-length digits (b'0' + ticks % 100 / 10) (b'0' + ticks % 100 % 10) in
              ground arith)
    ]
  ]
]

format_cents-FitsIn :
    (doubles : Doubles) (cents : ℤ) (size : ℕ) → FitsIn size (format_cents doubles cents size)
unfolding format_cents FitsIn
format_cents-FitsIn doubles cents size =
    elim (Bool-cases (ltb 0 (length (sign_of cents)) && leb size 1)) [
      | inl small ↦ rw small tt
      | inr enough ↦
          elim (Option-cases (to_chars (size - length (sign_of cents)) (magnitude cents / 100))) [
            | inl failed ↦ rw (enough, failed) tt
            | inr (digits, e) ↦
                elim (Bool-cases (ltb size (length (sign_of cents) + length digits + 4))) [
                  | inl over ↦ rw (enough, e, over) tt
                  | inr fits ↦
                      let a = b'0' + magnitude cents % 100 / 10 in
                      let b = b'0' + magnitude cents % 100 % 10 in
                      let n = cents-length digits a b in
                      let all = length-append (sign_of cents) (digits ++ b'.' ∷ a ∷ b ∷ []) in
                      rw (enough, e, fits) (ground arith)
                ]
          ]
    ]

module _ (doubles : Doubles) where
  open doubles use {Double, isfinite, leb_double, ltb_double, of_int, mul_double, llround}

  format_signed-FitsIn :
      (price : Double) (size : ℕ) → FitsIn size (format_signed doubles price size)
  unfolding format_signed FitsIn
  format_signed-FitsIn price size =
      let scaled = mul_double price (of_int (pos 100)) in
      elim (Bool-cases (not (isfinite price) || ltb size 5)) [
        | inl small ↦ rw small tt
        | inr enough ↦
            elim (Bool-cases (
              ltb_double (of_int (pos (2 ^ 63 - 1))) scaled
              || ltb_double scaled (of_int (negsuc (2 ^ 63 - 1))))) [
                | inl huge ↦ rw (enough, huge) tt
                | inr fine ↦ rw (enough, fine) (format_cents-FitsIn doubles (llround scaled) size)
              ]
      ]

  format_price-FitsIn :
      (price : Double) (size : ℕ) → FitsIn size (format_price_to_buffer doubles price size)
  unfolding format_price_to_buffer FitsIn
  format_price-FitsIn price size = elim (Bool-cases (size == 0)) [
    | inl empty ↦ rw empty tt
    | inr has ↦ elim (Bool-cases (leb_double (of_int (pos 0)) price)) [
      | inr below ↦ rw (has, below) (format_signed-FitsIn price size)
      | inl above ↦
          elim (Option-cases (format_ticks_to_buffer (double_to_ticks doubles price) size)) [
            | inl failed ↦ rw (has, above, failed) (format_signed-FitsIn price size)
            | inr (text, e) ↦
                rw (has, above, e)
                  (subst (FitsIn size) e (format_ticks-FitsIn (double_to_ticks doubles price) size))
          ]
    ]
  ]

-- Every text fits its array.
abbrev pub IsWritable : OutboundReportMsg → Type 0
IsWritable m = HasLengths m × Fits 24 m.price_text m.price_text_len

outbound-IsWritable :
    (report : ExecutionReport) (instrument : Option Text) (side : ℤ) (price : Option Text) (seq : ℕ)
    → FitsIn 24 price
    → IsWritable (outbound report instrument side price seq)
unfolding outbound FitsIn
outbound-IsWritable report instrument side price seq fits =
    let h = fill_outbound_fields-HasLengths empty_outbound report instrument side in
    (
      record {
        oid = h.oid;
        coid = h.coid;
        instrument = h.instrument;
        exec_status = h.exec_status;
        reason = h.reason;
        timestamp = h.timestamp;
      },
      price_fits price fits,
    )
  where
    price_fits :
        (price : Option Text) → FitsIn 24 price → Fits 24 (text_of price) (text_len (text_of price))
    price_fits none fits = (omega arith, refl)
    price_fits (some text) fits = (fits, omega (arith, fits))

pub emit_report-IsWritable :
    (seq : ℕ) (report : ExecutionReport) → IsWritable (emit_report seq report)
unfolding emit_report
emit_report-IsWritable seq report =
    outbound-IsWritable report _ _ (format_ticks_to_buffer report.price 24) seq
      (format_ticks-FitsIn report.price 24)

module _ (doubles : Doubles) (clock : ℕ → Text) where
  pub reject-IsWritable :
      (timestamp order_id : Text) (message : InboundOrderMsg doubles) (reason : Reason)
      → IsWritable (reject doubles clock timestamp order_id message reason)
  unfolding reject
  reject-IsWritable timestamp order_id message reason =
      outbound-IsWritable _ _ _ (format_price_to_buffer doubles message.price 24) _
        (format_price-FitsIn doubles message.price 24)

  -- Whatever the report, the row, its order number and the reason it is refused for: in the message
  -- that answers it, each of the seven texts leaves room for its NUL in its array, and the 8-bit
  -- length beside it is its length.
  pub messages-IsWritable :
      (seq : ℕ) (report : ExecutionReport) (timestamp order_id : Text)
      (message : InboundOrderMsg doubles) (reason : Reason)
      → IsWritable (emit_report seq report)
        × IsWritable (reject doubles clock timestamp order_id message reason)
  messages-IsWritable seq report timestamp order_id message reason =
      (emit_report-IsWritable seq report, reject-IsWritable timestamp order_id message reason)
