-- ===== src/Processor/Consume.antt =====
-- src/matching/order_processor.cpp: `OrderProcessor`, with the body of the loop of `consume` as a
-- function of one message. `timestamp` is what `timestamp_cache_.snapshot` gives, `address` where
-- `order_pool_.allocate` makes the order, `clock` the system clock. A report lives in its pool only
-- while it is copied into the message that is pushed.
use flower_exchange.Base.{
  ℕ, ◌+◌, ◌-◌, ◌%◌, ◌^◌, Option, none, some, List, [], ◌∷◌, ◌++◌, map, if◌then◌else◌, ◌>>=◌, ℤ, pos,
  negsuc, pos_part, eqb_ℤ, replicate,
}
use flower_exchange.Types.{
  Text, Ptr, buy, sell, side_code, count, Order, make_order, ExecutionReport, make_report, rejected,
  order_book_tick_capacity,
}
use flower_exchange.Types.Names.{parse_instrument, instrument_to_string}
use flower_exchange.Types.Format.{format_ticks_to_buffer}
use flower_exchange.Doubles.{Doubles}
use flower_exchange.Doubles.Ticks.{double_to_ticks, format_price_to_buffer}
use flower_exchange.Validator.{Reason, reason_text, validate_order}
use flower_exchange.Messages.{InboundOrderMsg, OutboundReportMsg, empty_outbound}
use flower_exchange.Processor.{format_order_id, fill_outbound_fields, text_len}
use flower_exchange.OrderBook.Heap.{write}
use flower_exchange.OrderBook.Bitmask.{BitmaskOrderBook, init}
use flower_exchange.OrderBook.Bitmask.Strategy.{bitmask_strategy}
use flower_exchange.Matching.{Engine, make_engine, process_order}

pub record OrderProcessor : Type 0 where
  pub next_oid : ℕ
  pub engine : Engine bitmask_strategy

-- `BitmaskOrderBook(kOrderBookTickCapacity)` for each instrument.
abbrev pub empty_books : List BitmaskOrderBook
empty_books = replicate 5 (init order_book_tick_capacity)

-- `OrderProcessor()`.
abbrev pub new_processor : OrderProcessor
new_processor = record {
  next_oid = 1;
  engine = make_engine bitmask_strategy (λ p. none) empty_books empty_books;
}

-- `reset()`: the books are made anew, and the pool is kept.
unfoldable pub reset : OrderProcessor → OrderProcessor
reset s = record {
  next_oid = 1;
  engine = make_engine bitmask_strategy s.engine.heap empty_books empty_books;
}

abbrev pub text_of : Option Text → Text
text_of none = []
text_of (some text) = text

-- `static_cast<uint16_t>`.
abbrev pub to_uint16 : ℤ → ℕ
to_uint16 (pos n) = n % 2 ^ 16
to_uint16 (negsuc n) = 2 ^ 16 - 1 - n % 2 ^ 16

-- A message with its price and its sequence number.
unfoldable pub outbound : ExecutionReport → Option Text → ℤ → Option Text → ℕ → OutboundReportMsg
outbound report instrument_text side price_text seq =
    record (fill_outbound_fields empty_outbound report instrument_text side) {
      price_text = text_of price_text;
      price_text_len = text_len (text_of price_text);
      seq = seq;
    }

-- The callback of `process_order`.
unfoldable pub emit_report : ℕ → ExecutionReport → OutboundReportMsg
unfolding outbound
emit_report seq report =
    outbound report (some (instrument_to_string report.instrument)) (pos (side_code report.side))
      (format_ticks_to_buffer report.price 24) seq

module _ (doubles : Doubles) (clock : ℕ → Text) where
  -- A message that fails validation, with its reason.
  unfoldable pub reject : Text → Text → InboundOrderMsg doubles → Reason → OutboundReportMsg
  unfolding outbound
  reject timestamp order_id message reason =
      outbound
        (make_report (clock 0) (some order_id) (some message.coid) count
          (if eqb_ℤ message.side (pos (side_code sell)) then sell else buy) 0
          (pos_part message.quantity % 2 ^ 16) rejected (some (reason_text reason))
          (some timestamp))
        (some message.instrument) message.side (format_price_to_buffer doubles message.price 24)
        message.seq

  -- The order that a valid message stands for.
  unfoldable pub order_of : Text → InboundOrderMsg doubles → Order
  unfolding make_order
  order_of order_id message =
      make_order (some order_id) (some message.coid) (parse_instrument message.instrument count).1
        (if eqb_ℤ message.side (pos (side_code buy)) then buy else sell)
        (double_to_ticks doubles message.price) (to_uint16 message.quantity)

  -- A valid order: it is allocated, and matched.
  unfoldable pub submit :
      Text
      → Ptr
      → ℕ
      → Order
      → Engine bitmask_strategy
      → Option (Engine bitmask_strategy × List OutboundReportMsg)
  unfolding write
  submit timestamp address seq order engine = do
    (engine, reports) ←
        process_order bitmask_strategy clock (some timestamp) address
          (record engine { heap = write engine.heap address (some order) })
    some (engine, map (emit_report seq) reports)

  -- A turn of the loop of `consume`: what `pop`, `snapshot` and `allocate` give.
  pub record Turn : Type 0 where
    pub message : InboundOrderMsg doubles
    pub timestamp : Text
    pub address : Ptr

  -- The body of the loop behind a successful `pop`.
  unfoldable pub handle : Turn → OrderProcessor → Option (OrderProcessor × List OutboundReportMsg)
  handle turn s =
      let message = turn.message in
      if message.end_of_stream
      then some (s, [])
      else (let order_id = format_order_id 32 s.next_oid in
          let next_oid = (s.next_oid + 1) % 2 ^ 64 in
          elim (validate_order doubles (parse_instrument message.instrument count).1 message.side
            message.price message.quantity) [
              | some reason ↦ some (
                record s { next_oid = next_oid },
                reject turn.timestamp order_id message reason ∷ [],
              )
              | none ↦ do
                (engine, outs) ←
                    submit turn.timestamp turn.address message.seq (order_of order_id message)
                      s.engine
                some (record { next_oid = next_oid; engine = engine }, outs)
            ])

  -- The turns of a file, in order.
  unfoldable pub consume :
      List Turn → OrderProcessor → Option (OrderProcessor × List OutboundReportMsg)
  consume [] s = some (s, [])
  consume (turn ∷ turns) s = do
    (s, outs) ← handle turn s
    (s, more) ← consume turns s
    some (s, outs ++ more)
