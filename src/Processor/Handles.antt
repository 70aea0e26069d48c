-- ===== src/Processor/Handles.antt =====
-- What a message does to the exchange, and what answers it.
use flower_exchange.Base.{
  ℕ, ◌+◌, ◌%◌, ◌^◌, ◌<◌, ◌≡◌, ◌≢◌, refl, ap, arith, inl, inr, Bool, true, false, Option, none, some,
  List, [], ◌∷◌, map, pos_part, ltb, if◌then◌else◌, Bool-cases, Option-cases,
}
use flower_exchange.Types.{
  Text, Ptr, PriceTick, Side, InstrumentType, count, Order, instrument_code, ExecutionReport,
  order_book_tick_capacity,
}
use flower_exchange.Types.Names.{parse_instrument}
use flower_exchange.Doubles.{Doubles}
use flower_exchange.Doubles.Range.{DoubleLaws, double_to_ticks-lt, double_to_ticks-llround}
use flower_exchange.Validator.{Reason, validate_order, IsValid}
use flower_exchange.Validator.Laws.{validate_order-IsValid}
use flower_exchange.Messages.{InboundOrderMsg, OutboundReportMsg}
use flower_exchange.Processor.Consume.{Turn, emit_report, submit}
use flower_exchange.Processor.Reference.{made, answer, refusal}
use flower_exchange.Processor.Told.{emit_report-answer}
use flower_exchange.OrderBook.Heap.{write}
use flower_exchange.OrderBook.Levels.{has}
use flower_exchange.OrderBook.Bitmask.Strategy.{bitmask_strategy, bitmask_laws}
use flower_exchange.Matching.{Engine, opposite}
use flower_exchange.Matching.Reference.{Entry, Trade, fill, orders_of}
use flower_exchange.Matching.Trades.{takes, some_trade}
use flower_exchange.Matching.Exchange.{World}
use flower_exchange.Matching.Process.{matched, world_after, reports_after, IsExchange}
use flower_exchange.Matching.Allocate.{allocate-IsArrival}
use flower_exchange.Matching.Arrival.{process_order-Serves}

-- Without a trade the whole quantity is left.
fill-idle :
    (accepts : PriceTick → Bool) (q : ℕ) (xs : List Entry)
    → some_trade (fill accepts q xs).trades ≡ false
    → (fill accepts q xs).left ≡ q
unfolding fill
fill-idle accepts q [] e = refl
fill-idle accepts q (x ∷ xs) e = ground arith

-- An order is answered by a report at least.
pub reports_after-ne-nil :
    (clock : ℕ → Text) (event_timestamp : Option Text) (i : Order) (w : World)
    → 0 < i.quantity
    → reports_after clock event_timestamp i w ≢ []
reports_after-ne-nil clock ts i w positive = by_trades (matched i w).trades refl
  where
    by_trades :
        (trades : List Trade) → (matched i w).trades ≡ trades → reports_after clock ts i w ≢ []
    by_trades [] e =
        let whole =
          fill-idle (takes i) i.quantity (w (opposite i.side) i.instrument) (ap some_trade e) in
        let left : ltb 0 (matched i w).left ≡ true = ground (arith, whole) in
        rw (left, e) (λ n. absurd (ground arith))
    by_trades (t ∷ trades) e = rw e (elim (Bool-cases (ltb 0 (matched i w).left)) [
      | inl l ↦ rw l (λ n. absurd (ground arith))
      | inr l ↦ rw l (λ n. absurd (ground arith))
    ])

-- Every message of the list answers the row `seq`.
abbrev pub AllSeq : ℕ → List OutboundReportMsg → Type 0
AllSeq seq [] = Unit {0}
AllSeq seq (out ∷ outs) = (out.seq ≡ seq) × AllSeq seq outs

pub emitted-AllSeq :
    (seq : ℕ) (reports : List ExecutionReport) → AllSeq seq (map (answer seq) reports)
unfolding answer
emitted-AllSeq seq [] = tt
emitted-AllSeq seq (r ∷ reports) = (refl, emitted-AllSeq seq reports)

abbrev pub some_out : List OutboundReportMsg → Bool
some_out [] = false
some_out (out ∷ outs) = true

map-answer :
    (seq : ℕ) (reports : List ExecutionReport)
    → map (emit_report seq) reports ≡ map (answer seq) reports
map-answer seq [] = refl
map-answer seq (r ∷ reports) = rw (emit_report-answer seq r, map-answer seq reports) refl

pub some_out-map :
    (f : ExecutionReport → OutboundReportMsg) (reports : List ExecutionReport)
    → reports ≢ []
    → some_out (map f reports) ≡ true
some_out-map f [] ne = absurd (ne refl)
some_out-map f (r ∷ reports) ne = refl

-- A free address is in no market.
abbrev pub IsFree : Ptr → World → Type 0
IsFree p w = (s : Side) (k : InstrumentType) → has p (orders_of (w s k)) ≡ false

free-none :
    (p : Ptr) (e : Engine bitmask_strategy) (w : World)
    → IsExchange (bitmask_laws order_book_tick_capacity) e w
    → IsFree p w
    → e.heap p ≡ none
free-none p e w x free = elim (Option-cases (e.heap p)) [
  | inl empty ↦ empty
  | inr (o, live) ↦ absurd (ground (arith, free o.side o.instrument, x.owned p o))
]

module _ (doubles : Doubles) (clock : ℕ → Text) where
  abbrev pub validation : InboundOrderMsg doubles → Option Reason
  validation message =
      validate_order doubles (parse_instrument message.instrument count).1 message.side
        message.price message.quantity

  abbrev pub next_number : InboundOrderMsg doubles → ℕ → ℕ
  next_number message number = if message.end_of_stream then number else (number + 1) % 2 ^ 64

  -- The reference: what a turn does to the markets, and the messages that answer it.
  abbrev pub world_handled : Turn doubles clock → ℕ → World → World
  world_handled turn number w =
      if turn.message.end_of_stream then w else elim (validation turn.message) [
        | some reason ↦ w
        | none ↦ world_after turn.address (made doubles turn.message number) w
      ]

  abbrev pub outs_handled : Turn doubles clock → ℕ → World → List OutboundReportMsg
  outs_handled turn number w =
      if turn.message.end_of_stream then [] else elim (validation turn.message) [
        | some reason ↦ refusal doubles clock turn.timestamp number turn.message reason ∷ []
        | none ↦
            map (answer turn.message.seq)
              (reports_after clock (some turn.timestamp) (made doubles turn.message number) w)
      ]

  -- A valid message makes an order that the engine takes.
  module _ (laws : DoubleLaws doubles) (message : InboundOrderMsg doubles) (number : ℕ)
      (valid : validation message ≡ none) where
    pub v :
        IsValid doubles
          (parse_instrument message.instrument count).1
          message.side
          message.price
          message.quantity
    v =
        validate_order-IsValid doubles (parse_instrument message.instrument count).1 message.side
          message.price message.quantity valid

    made-quantity : (made doubles message number).quantity ≡ v.size
    unfolding made
    made-quantity = ap pos_part v.quantity_is

    made-listed : instrument_code (made doubles message number).instrument < 5
    unfolding made
    made-listed = v.listed

    made-fits : (made doubles message number).price < order_book_tick_capacity
    unfolding made
    made-fits = omega (
      arith,
      double_to_ticks-lt doubles laws message.price v.finite v.above v.below,
      double_to_ticks-llround doubles laws message.price v.finite v.above v.below,
    )

    pub made-positive : 0 < (made doubles message number).quantity
    made-positive = omega (arith, made-quantity, v.at_least)

    made-fits_word : (made doubles message number).quantity < 2 ^ 16
    made-fits_word = omega (arith, made-quantity, v.at_most)

    pub submit-Serves :
        (timestamp : Text) (p : Ptr) (e : Engine bitmask_strategy) (w : World)
        → IsExchange (bitmask_laws order_book_tick_capacity) e w
        → IsFree p w
        → (e' : Engine bitmask_strategy) × (submit doubles clock timestamp p message.seq
              (made doubles message number)
              e
            ≡ some (
              e',
              map
                  (answer message.seq)
                  (reports_after clock (some timestamp) (made doubles message number) w),
            ))
          × IsExchange
              (bitmask_laws order_book_tick_capacity)
              e'
              (world_after p (made doubles message number) w)
    unfolding submit bitmask_laws
    submit-Serves timestamp p e w x free =
        let (e', returns, after) =
          process_order-Serves (bitmask_laws order_book_tick_capacity) clock (some timestamp)
            (record e { heap = write e.heap p (some (made doubles message number)) }) w p
            (made doubles message number)
            (allocate-IsArrival (bitmask_laws order_book_tick_capacity) e w p x
              (free-none p e w x free) (made doubles message number) made-listed made-positive
              made-fits_word made-fits) in
        (e', rw (returns, map-answer message.seq _) refl, after)
