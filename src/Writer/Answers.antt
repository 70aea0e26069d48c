-- ===== src/Writer/Answers.antt =====
-- The lengths of the messages of the processor, for the rows of the writer.
use flower_exchange.Base.{
  ℕ, ◌≡◌, refl, subst, arith, inl, inr, true, false, List, [], ◌∷◌, ◌++◌, map, length, ltb,
  Bool-cases, Option-cases,
}
use flower_exchange.Types.{Text, ExecutionReport}
use flower_exchange.Doubles.{Doubles}
use flower_exchange.Messages.{OutboundReportMsg}
use flower_exchange.Processor.{format_order_id}
use flower_exchange.Processor.Writable.{IsWritable, emit_report-IsWritable, reject-IsWritable}
use flower_exchange.Processor.Reference.{answer}
use flower_exchange.Processor.Told.{emit_report-answer, reject-refusal}
use flower_exchange.Processor.Consume.{Turn}
use flower_exchange.Processor.Handles.{validation, outs_handled}
use flower_exchange.Matching.Exchange.{World}
use flower_exchange.Writer.{row_text}
use flower_exchange.Writer.Rows.{row_text-length}
use flower_exchange.Writer.Drain.{rows_fit}

abbrev pub AllWritable : List OutboundReportMsg → Type 0
AllWritable [] = Unit {0}
AllWritable (m ∷ ms) = IsWritable m × AllWritable ms

pub append-AllWritable :
    (ms ns : List OutboundReportMsg) → AllWritable ms → AllWritable ns → AllWritable (ms ++ ns)
append-AllWritable [] ns a b = b
append-AllWritable (m ∷ ms) ns (h, a) b = (h, append-AllWritable ms ns a b)

emitted-AllWritable :
    (seq : ℕ) (reports : List ExecutionReport) → AllWritable (map (answer seq) reports)
emitted-AllWritable seq [] = tt
emitted-AllWritable seq (r ∷ reports) = (
  subst IsWritable (emit_report-answer seq r) (emit_report-IsWritable seq r),
  emitted-AllWritable seq reports,
)

pub rows_fit-AllWritable : (ms : List OutboundReportMsg) → AllWritable ms → rows_fit ms ≡ true
rows_fit-AllWritable [] all = refl
rows_fit-AllWritable (m ∷ ms) ((h, price), all) =
    let short = row_text-length m h price in
    let fits : ltb 320 (length (row_text m)) ≡ false = ground arith in
    rw fits (rows_fit-AllWritable ms all)

module _ (doubles : Doubles) (clock : ℕ → Text) where
  pub outs_handled-AllWritable :
      (turn : Turn doubles clock) (number : ℕ) (w : World)
      → AllWritable (outs_handled doubles clock turn number w)
  outs_handled-AllWritable turn number w = elim (Bool-cases turn.message.end_of_stream) [
    | inl ends ↦ rw ends tt
    | inr more ↦ elim (Option-cases (validation doubles clock turn.message)) [
      | inl valid ↦ rw (more, valid) (emitted-AllWritable turn.message.seq _)
      | inr (reason, bad) ↦
          rw (more, bad)
            (
              subst IsWritable
                  (reject-refusal doubles clock turn.timestamp number turn.message reason)
                  (reject-IsWritable doubles clock turn.timestamp (format_order_id 32 number)
                    turn.message reason),
              tt,
            )
    ]
  ]
