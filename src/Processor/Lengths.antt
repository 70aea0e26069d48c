-- ===== src/Processor/Lengths.antt =====
-- The lengths of an outbound report's texts.
use flower_exchange.Base.{
  ℕ, zero, suc, ◌≤◌, ◌<◌, ◌≡◌, arith, inl, inr, Option, none, some, [], ◌∷◌, length, ◌==◌,
  Bool-cases, ℤ,
}
use flower_exchange.Types.{Text, ExecutionReport, copy_chars}
use flower_exchange.Types.Names.{exec_status_to_string}
use flower_exchange.Messages.{OutboundReportMsg}
use flower_exchange.Processor.{copy_text, text_len, fill_outbound_fields}

copy_chars-length-le : (n : ℕ) (s : Text) → length (copy_chars n s) ≤ n
unfolding copy_chars
copy_chars-length-le zero s = omega arith
copy_chars-length-le (suc n) [] = omega arith
copy_chars-length-le (suc n) (c ∷ s) = elim (Bool-cases (c == 0)) [
  | inl e ↦ rw e (omega arith)
  | inr e ↦ rw e (omega (arith, copy_chars-length-le n s))
]

copy_text-length-lt : (n : ℕ) (s : Option Text) → length (copy_text (suc n) s) < suc n
unfolding copy_text
copy_text-length-lt n none = omega arith
copy_text-length-lt n (some s) = omega (arith, copy_chars-length-le n s)

-- A text that leaves room for its NUL, and a length that did not wrap.
abbrev pub Fits : ℕ → Text → ℕ → Type 0
Fits size text len = (length text < size) × (len ≡ length text)

pub record HasLengths (out : OutboundReportMsg) : Type 0 where
  pub oid : Fits 32 out.oid out.oid_len
  pub coid : Fits 64 out.coid out.coid_len
  pub instrument : Fits 32 out.instrument out.instrument_len
  pub exec_status : Fits 16 out.exec_status out.exec_status_len
  pub reason : Fits 64 out.reason out.reason_len
  pub timestamp : Fits 20 out.timestamp out.timestamp_len

copied-Fits :
    (n : ℕ) (s : Option Text)
    → n < 255
    → Fits (suc n) (copy_text (suc n) s) (text_len (copy_text (suc n) s))
copied-Fits n s small = (copy_text-length-lt n s, omega (arith, copy_text-length-lt n s))

-- The six texts that the call fills; the price text is the caller's.
pub fill_outbound_fields-HasLengths :
    (out : OutboundReportMsg) (report : ExecutionReport) (instrument_text : Option Text) (side : ℤ)
    → HasLengths (fill_outbound_fields out report instrument_text side)
unfolding fill_outbound_fields
fill_outbound_fields-HasLengths out report instrument_text side = record {
  oid = copied-Fits 31 (some report.oid) (omega arith);
  coid = copied-Fits 63 (some report.coid) (omega arith);
  instrument = copied-Fits 31 instrument_text (omega arith);
  exec_status = copied-Fits 15 (some (exec_status_to_string report.status)) (omega arith);
  reason = copied-Fits 63 (some report.reason) (omega arith);
  timestamp = copied-Fits 19 (some report.timestamp) (omega arith);
}
