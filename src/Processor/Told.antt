-- ===== src/Processor/Told.antt =====
-- src/matching/order_processor.cpp: `emit_report`, `reject` and `order_of` against the reference that
-- tells their fields.
use flower_exchange.Base.{
  ℕ, zero, suc, ◌-◌, ◌≤◌, ◌≡◌, refl, sym, ap, ◌∙◌, arith, inl, inr, true, false, Option, none, some,
  [], ◌∷◌, take, ◌==◌, if◌then◌else◌, Bool-cases, ℤ, pos, negsuc, pos_part, eqb_ℤ,
}
use flower_exchange.Types.{
  Text, Side, buy, sell, InstrumentType, rose, lavender, lotus, tulip, orchid, count, ExecStatus,
  new, rejected, fill, pfill, side_code, ExecutionReport, copy_chars, copy_field, make_order,
  make_report, report_timestamp,
}
use flower_exchange.Types.Names.{parse_instrument, instrument_to_string, exec_status_to_string}
use flower_exchange.Types.Format.{format_ticks_to_buffer}
use flower_exchange.Doubles.{Doubles}
use flower_exchange.Doubles.Range.{DoubleLaws, double_to_ticks-llround}
use flower_exchange.Doubles.Ticks.{format_price_to_buffer}
use flower_exchange.Validator.{
  Reason, reason_text, IsValid, invalid_instrument, invalid_side, invalid_size, invalid_price,
}
use flower_exchange.Messages.{InboundOrderMsg}
use flower_exchange.Processor.{copy_text, text_len, format_order_id, fill_outbound_fields}
use flower_exchange.Processor.Lengths.{Fits, HasLengths}
use flower_exchange.Processor.Writable.{emit_report-IsWritable, reject-IsWritable}
use flower_exchange.Processor.Consume.{text_of, to_uint16, outbound, emit_report, reject, order_of}
use flower_exchange.Processor.Reference.{
  before_nul, held, given, order_number, side_meant, side_number, name_shown, status_shown,
  message_with, answer, time_or, refusal, made, reason_shown,
}

copy_chars-take : (n : ℕ) (s : Text) → copy_chars n s ≡ take n (before_nul s)
unfolding copy_chars before_nul
copy_chars-take zero s = refl
copy_chars-take (suc n) [] = refl
copy_chars-take (suc n) (c ∷ s) = elim (Bool-cases (c == 0)) [
  | inl ends ↦ rw ends refl
  | inr more ↦ rw more (ap (λ t. c ∷ t) (copy_chars-take n s))
]

-- A text that was copied is copied as a whole.
copy_chars-again : (n : ℕ) (s : Text) → copy_chars n (copy_chars n s) ≡ copy_chars n s
unfolding copy_chars
copy_chars-again zero s = refl
copy_chars-again (suc n) [] = refl
copy_chars-again (suc n) (c ∷ s) = elim (Bool-cases (c == 0)) [
  | inl ends ↦ rw ends refl
  | inr more ↦ rw (more, more) (ap (λ t. c ∷ t) (copy_chars-again n s))
]

-- The fields of a message whose lengths are right.
outbound-message_with :
    (report : ExecutionReport) (instrument : Option Text) (side : ℤ) (price : Option Text) (seq : ℕ)
    → HasLengths (outbound report instrument side price seq)
    → Fits 24 (text_of price) (text_len (text_of price))
    → outbound report instrument side price seq
      ≡ message_with
          (copy_text 32 (some report.oid))
          (copy_text 64 (some report.coid))
          (copy_text 32 instrument)
          (copy_text 16 (some (exec_status_to_string report.status)))
          (text_of price)
          (copy_text 64 (some report.reason))
          (copy_text 20 (some report.timestamp))
          side
          (pos report.quantity)
          seq
unfolding outbound fill_outbound_fields
outbound-message_with report instrument side price seq h fits =
    rw (h.oid.1, h.coid.1, h.instrument.1, h.exec_status.1, fits.1, h.reason.1, h.timestamp.1) refl

name-shown : (k : InstrumentType) → copy_text 32 (some (instrument_to_string k)) ≡ name_shown k
unfolding copy_text copy_chars
name-shown rose = refl
name-shown lavender = refl
name-shown lotus = refl
name-shown tulip = refl
name-shown orchid = refl
name-shown count = refl

status-shown : (s : ExecStatus) → copy_text 16 (some (exec_status_to_string s)) ≡ status_shown s
unfolding copy_text copy_chars
status-shown new = refl
status-shown rejected = refl
status-shown fill = refl
status-shown pfill = refl

side-number : (s : Side) → pos (side_code s) ≡ side_number s
side-number buy = refl
side-number sell = refl

copy_text-held : (n : ℕ) (s : Text) → copy_text (suc n) (some s) ≡ held (suc n) s
unfolding copy_text held
copy_text-held n s = let same : suc n - 1 ≡ n = omega arith in rw same (copy_chars-take n s)

given-text_of : (text : Option Text) → text_of text ≡ given text
given-text_of none = refl
given-text_of (some text) = refl

pub emit_report-answer :
    (seq : ℕ) (report : ExecutionReport) → emit_report seq report ≡ answer seq report
unfolding emit_report answer
emit_report-answer seq report =
    let (h, fits) = emit_report-IsWritable seq report in
    outbound-message_with report (some (instrument_to_string report.instrument))
      (pos (side_code report.side)) (format_ticks_to_buffer report.price 24) seq h fits
    ∙ rw
        (
          copy_text-held 31 report.oid,
          copy_text-held 63 report.coid,
          name-shown report.instrument,
          status-shown report.status,
          given-text_of (format_ticks_to_buffer report.price 24),
          copy_text-held 63 report.reason,
          copy_text-held 19 report.timestamp,
          side-number report.side,
        )
        refl

format_order_id-number : (number : ℕ) → format_order_id 32 number ≡ order_number number
unfolding format_order_id
format_order_id-number number = refl

copy_text-again :
    (n : ℕ) (s : Text) → copy_text (suc n) (some (copy_chars n s)) ≡ copy_text (suc n) (some s)
unfolding copy_text
copy_text-again n s = copy_chars-again n s

copy_text-twice : (n : ℕ) (s : Text) → copy_text (suc n) (some (copy_chars n s)) ≡ held (suc n) s
copy_text-twice n s = copy_text-again n s ∙ copy_text-held n s

reason-shown :
    (r : Reason) → copy_text 64 (some (copy_field 49 (some (reason_text r)))) ≡ reason_shown r
unfolding copy_text copy_chars copy_field
reason-shown invalid_instrument = refl
reason-shown invalid_side = refl
reason-shown invalid_size = refl
reason-shown invalid_price = refl

report_timestamp-none :
    (now text : Text) (c : ℕ) → c == 0 ≡ true → report_timestamp now (some (c ∷ text)) ≡ now
unfolding report_timestamp
report_timestamp-none now text c e = ap (λ b. if b then now else copy_chars 19 (c ∷ text)) e

report_timestamp-some :
    (now text : Text) (c : ℕ)
    → c == 0 ≡ false
    → report_timestamp now (some (c ∷ text)) ≡ copy_chars 19 (c ∷ text)
unfolding report_timestamp
report_timestamp-some now text c e = ap (λ b. if b then now else copy_chars 19 (c ∷ text)) e

time-held :
    (now text : Text)
    → copy_text 20 (some (report_timestamp now (some text))) ≡ held 20 (time_or now text)
unfolding report_timestamp
time-held now [] = copy_text-held 19 now
time-held now (c ∷ text) = elim (Bool-cases (c == 0)) [
  | inl empty ↦
      ap (λ t. copy_text 20 (some t)) (report_timestamp-none now text c empty)
      ∙ copy_text-held 19 now
      ∙ sym (ap (λ b. held 20 (if b then now else c ∷ text)) empty)
  | inr filled ↦
      ap (λ t. copy_text 20 (some t)) (report_timestamp-some now text c filled)
      ∙ copy_text-twice 19 (c ∷ text)
      ∙ sym (ap (λ b. held 20 (if b then now else c ∷ text)) filled)
]

copy_chars-held : (n : ℕ) (s : Text) → copy_chars n s ≡ held (suc n) s
unfolding held
copy_chars-held n s = let same : suc n - 1 ≡ n = omega arith in rw same (copy_chars-take n s)

side-meant : (z : ℤ) → (if eqb_ℤ z (pos (side_code buy)) then buy else sell) ≡ side_meant z
side-meant (pos zero) = refl
side-meant (pos (suc zero)) = refl
side-meant (pos (suc (suc n))) =
    let other : eqb_ℤ (pos (suc (suc n))) (pos 1) ≡ false = ground arith in rw other refl
side-meant (negsuc n) = let other : eqb_ℤ (negsuc n) (pos 1) ≡ false = ground arith in rw other refl

to_uint16-part : (z : ℤ) (n : ℕ) → z ≡ pos n → n ≤ 1000 → to_uint16 z ≡ pos_part z
to_uint16-part z n e small = ap to_uint16 e ∙ omega (arith, small) ∙ sym (ap pos_part e)

module _ (doubles : Doubles) (clock : ℕ → Text) where
  pub reject-refusal :
      (timestamp : Text) (number : ℕ) (message : InboundOrderMsg doubles) (reason : Reason)
      → reject doubles clock timestamp (format_order_id 32 number) message reason
        ≡ refusal doubles clock timestamp number message reason
  unfolding reject refusal make_report copy_field
  reject-refusal timestamp number message reason =
      let (h, fits) =
        reject-IsWritable doubles clock timestamp (format_order_id 32 number) message reason in
      outbound-message_with _ (some message.instrument) message.side
        (format_price_to_buffer doubles message.price 24) message.seq h fits
      ∙ rw
          (
            format_order_id-number number,
            copy_text-twice 31 (order_number number),
            copy_text-twice 63 message.coid,
            copy_text-held 31 message.instrument,
            status-shown rejected,
            given-text_of (format_price_to_buffer doubles message.price 24),
            reason-shown reason,
            time-held (clock 0) timestamp,
          )
          refl

  -- A valid message makes the order that is told.
  pub order_of-made :
      (laws : DoubleLaws doubles) (message : InboundOrderMsg doubles) (number : ℕ)
      → IsValid doubles
          (parse_instrument message.instrument count).1
          message.side
          message.price
          message.quantity
      → order_of doubles clock (format_order_id 32 number) message ≡ made doubles message number
  unfolding order_of made make_order copy_field
  order_of-made laws message number v =
      rw
        (
          format_order_id-number number,
          copy_chars-held 31 (order_number number),
          copy_chars-held 63 message.coid,
          side-meant message.side,
          double_to_ticks-llround doubles laws message.price v.finite v.above v.below,
          to_uint16-part message.quantity v.size v.quantity_is v.at_most,
        )
        refl
