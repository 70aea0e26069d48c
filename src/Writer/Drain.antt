-- ===== src/Writer/Drain.antt =====
-- What `drain` writes, without its batches.
use flower_exchange.Base.{
  ◌≡◌, refl, sym, ap, ◌∙◌, arith, inl, inr, Bool, true, false, some, List, [], ◌∷◌, ◌++◌, length,
  leb, ltb, ◌==◌, if◌then◌else◌, Bool-cases,
}
use flower_exchange.Types.{Text}
use mathlib.Core.List.{append_assoc, append-nil}
use flower_exchange.Messages.{OutboundReportMsg}
use flower_exchange.Writer.{
  Draining, header, row_text, append_csv_row, write_report, write_reports, close, start_draining,
  drain, batch_limit,
}

-- Every row fits its array.
abbrev pub rows_fit : List OutboundReportMsg → Bool
rows_fit [] = true
rows_fit (m ∷ ms) = if ltb 320 (length (row_text m)) then false else rows_fit ms

abbrev pub rows : List OutboundReportMsg → Text
rows [] = []
rows (m ∷ ms) = row_text m ++ rows ms

abbrev pending : Draining → Text
pending s = s.file ++ s.write_batch

pub write_report-pending :
    (m : OutboundReportMsg) (s : Draining)
    → ltb 320 (length (row_text m)) ≡ false
    → (s' : Draining) × (write_report m s ≡ some s') × (pending s' ≡ pending s ++ row_text m)
unfolding write_report append_csv_row
write_report-pending m s fits =
    let batch : Text = s.write_batch ++ row_text m in
    elim (Bool-cases (leb batch_limit (length batch))) [
      | inl full ↦ (
        record { write_batch = []; file = s.file ++ batch },
        rw (fits, full) refl,
        append-nil (s.file ++ batch) ∙ sym (append_assoc s.file s.write_batch (row_text m)),
      )
      | inr small ↦ (
        record s { write_batch = batch },
        rw (fits, small) refl,
        sym (append_assoc s.file s.write_batch (row_text m)),
      )
    ]

write_reports-pending :
    (ms : List OutboundReportMsg) (s : Draining)
    → rows_fit ms ≡ true
    → (s' : Draining) × (write_reports ms s ≡ some s') × (pending s' ≡ pending s ++ rows ms)
unfolding write_reports
write_reports-pending [] s fit = (s, refl, sym (append-nil (pending s)))
write_reports-pending (m ∷ ms) s fit =
    let here : ltb 320 (length (row_text m)) ≡ false = ground arith in
    let (s1, first, e1) = write_report-pending m s here in
    let (s2, later, e2) = write_reports-pending ms s1 (ground arith) in
    (
      s2,
      rw first later,
      e2 ∙ ap (λ t. t ++ rows ms) e1 ∙ append_assoc (pending s) (row_text m) (rows ms),
    )

close-pending : (s : Draining) → close s ≡ pending s
unfolding close
close-pending s = last s.write_batch
  where
    last :
        (batch : Text) → (if length batch == 0 then s.file else s.file ++ batch) ≡ s.file ++ batch
    last [] = sym (append-nil s.file)
    last (c ∷ batch) = ground arith

-- Where every row fits its array: whatever the batches, the file is the header line and then the row
-- of each message, in order, none lost and none twice.
pub drain-rows :
    (ms : List OutboundReportMsg) → rows_fit ms ≡ true → drain ms ≡ some (header ++ rows ms)
unfolding drain
drain-rows ms fit =
    let (s, writes, e) = write_reports-pending ms start_draining fit in
    rw writes (ap some (close-pending s ∙ e))
