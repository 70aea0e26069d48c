-- ===== src/Writer/Rows.antt =====
-- A row of the output file: its fields, its length, and reading it back.
use flower_exchange.Base.{
  ℕ, suc, ◌+◌, ◌-◌, ◌^◌, ◌<◌, ◌≤◌, ◌≡◌, refl, ap, ◌∙◌, arith, true, List, [], ◌∷◌, ◌++◌, length,
  get_elem?, take, replicate, length-append,
}
use mathlib.Core.List.{append_assoc}
use flower_exchange.Types.{Text}
use flower_exchange.Messages.{OutboundReportMsg}
use flower_exchange.Csv.{read_next_row, field}
use flower_exchange.Csv.Split.{join, take-append}
use flower_exchange.Csv.Join.{all_plain, field-join}
use flower_exchange.Processor.Lengths.{Fits, HasLengths}
use flower_exchange.Writer.{write_side_to_buffer, write_quantity_to_buffer, append_span, row_text}
use flower_exchange.Writer.Numbers.{side-length, quantity-length, side-plain, quantity-plain}

abbrev later_fields : OutboundReportMsg → List Text
later_fields m =
    m.coid
    ∷ m.instrument
    ∷ write_side_to_buffer m.side
    ∷ m.exec_status
    ∷ write_quantity_to_buffer m.quantity
    ∷ m.price_text
    ∷ m.reason
    ∷ m.timestamp
    ∷ []

abbrev pub fields : OutboundReportMsg → List Text
fields m = m.oid ∷ later_fields m

append_span-Fits :
    (out text : Text) (n len : ℕ) → Fits n text len → append_span out text len ≡ out ++ text
unfolding append_span
append_span-Fits out text n len (_, e) =
    ap (λ k. out ++ take k (text ++ replicate (len - length text) 0)) e
    ∙ ap (λ t. out ++ t) (take-append text (replicate (len - length text) 0))

pub row_text-join :
    (m : OutboundReportMsg)
    → HasLengths m
    → Fits 24 m.price_text m.price_text_len
    → row_text m ≡ join (fields m) ++ (10 ∷ [])
unfolding row_text
row_text-join m h price =
    rw
      (
        append_span-Fits _ m.oid 32 m.oid_len h.oid,
        append_span-Fits _ m.coid 64 m.coid_len h.coid,
        append_span-Fits _ m.instrument 32 m.instrument_len h.instrument,
        append_span-Fits _ m.exec_status 16 m.exec_status_len h.exec_status,
        append_span-Fits _ m.price_text 24 m.price_text_len price,
        append_span-Fits _ m.reason 64 m.reason_len h.reason,
        append_span-Fits _ m.timestamp 20 m.timestamp_len h.timestamp,
      )
      (simp (append_assoc {A = ℕ}) refl)

join-length :
    (f g : Text) (fs : List Text)
    → length (join (f ∷ g ∷ fs)) ≡ length f + suc (length (join (g ∷ fs)))
join-length f g fs = length-append f (b',' ∷ join (g ∷ fs))

-- A row of a message whose texts fit their arrays is at most 286 bytes long.
pub row_text-length :
    (m : OutboundReportMsg)
    → HasLengths m
    → Fits 24 m.price_text m.price_text_len
    → length (row_text m) ≤ 286
row_text-length m h price = rw (row_text-join m h price) (
    omega (
      arith,
      length-append (join (fields m)) (10 ∷ []),
      join-length m.oid m.coid _,
      join-length m.coid m.instrument _,
      join-length m.instrument (write_side_to_buffer m.side) _,
      join-length (write_side_to_buffer m.side) m.exec_status _,
      join-length m.exec_status (write_quantity_to_buffer m.quantity) _,
      join-length (write_quantity_to_buffer m.quantity) m.price_text _,
      join-length m.price_text m.reason _,
      join-length m.reason m.timestamp [],
      side-length m.side,
      quantity-length m.quantity,
      h.oid.0,
      h.coid.0,
      h.instrument.0,
      h.exec_status.0,
      h.reason.0,
      h.timestamp.0,
      price.0,
    ))

-- The texts of a message.
abbrev pub texts : OutboundReportMsg → List Text
texts m = m.oid ∷ m.coid ∷ m.instrument ∷ m.exec_status ∷ m.price_text ∷ m.reason ∷ m.timestamp ∷ []

abbrev pub ReadsBack : OutboundReportMsg → Type 0
ReadsBack m =
    (line : Text) × (row_text m ≡ line ++ (10 ∷ []))
    × ((i : ℕ) → field (read_next_row line) i ≡ get_elem? (fields m) i)

-- For a message whose texts fit their arrays and hold no comma, carriage return or line feed: the
-- row is a line and a line feed, and the reader finds in the line exactly the nine fields.
pub row_text-ReadsBack :
    (m : OutboundReportMsg)
    → HasLengths m
    → Fits 24 m.price_text m.price_text_len
    → all_plain (texts m) ≡ true
    → ReadsBack m
row_text-ReadsBack m h price plain =
    let side = side-plain m.side in
    let quantity = quantity-plain m.quantity in
    let all : all_plain (fields m) ≡ true = ground arith in
    let short : length (join (fields m)) < 2 ^ 31 = omega (
      arith,
      row_text-length m h price,
      ap length (row_text-join m h price),
      length-append (join (fields m)) (10 ∷ []),
    ) in
    (join (fields m), row_text-join m h price, field-join m.oid (later_fields m) all short)
