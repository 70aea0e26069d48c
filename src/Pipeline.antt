-- ===== src/Pipeline.antt =====
-- src/app/file_processing_pipeline.cpp: `process_file` as three threads that two queues connect. A
-- step is a call on a queue that succeeds, with what its thread does next, or a flag that is set; the
-- spins between them change nothing. A queue is the list of its messages, oldest first, and its
-- capacity is a parameter (boost::lockfree::spsc_queue: a push succeeds if and only if there is room).
pub mod Sequence
pub mod Flow
pub mod Exit
pub mod Halts
pub mod Unused
pub mod Progress
use flower_exchange.Base.{
  ℕ, ◌<◌, ◌≡◌, Bool, true, false, ◌||◌, ◌&&◌, Option, none, some, List, [], ◌∷◌, ◌++◌, length,
}
use flower_exchange.Types.{Text}
use flower_exchange.Doubles.{Doubles}
use flower_exchange.Messages.{InboundOrderMsg, OutboundReportMsg}
use flower_exchange.Csv.{CsvRow}
use flower_exchange.Producer.{produce}
use flower_exchange.Processor.Consume.{Turn, OrderProcessor, new_processor, reset, handle}
use flower_exchange.Writer.{Draining, start_draining, write_report, close}

pub record Capacities : Type 0 where
  pub inbound_capacity : ℕ
  pub outbound_capacity : ℕ

module _ (doubles : Doubles) (clock : ℕ → Text) where
  -- What the threads still have to do, their queues, and the flags of `PipelineState`. `to_push` are
  -- the messages that the producer has not pushed yet, `producer_returns` tells whether `produce` comes
  -- to its end behind them or throws, `to_emit` are the messages of the matcher's turn, and `output` is the file once the writer has closed it.
  pub record Pipeline : Type 0 where
    pub to_push : List (InboundOrderMsg doubles)
    pub producer_returns : Bool
    pub producer_done : Bool
    pub inbound_queue : List (InboundOrderMsg doubles)
    pub order_processor : OrderProcessor
    pub got_end_of_stream : Bool
    pub to_emit : List OutboundReportMsg
    pub matcher_done : Bool
    pub outbound_queue : List OutboundReportMsg
    pub draining : Draining
    pub output : Option Text

  -- The start of the threads, on messages of the producer.
  abbrev pub start : Bool → List (InboundOrderMsg doubles) → OrderProcessor → Pipeline
  start returns messages processor = record {
    to_push = messages;
    producer_returns = returns;
    producer_done = false;
    inbound_queue = [];
    order_processor = processor;
    got_end_of_stream = false;
    to_emit = [];
    matcher_done = false;
    outbound_queue = [];
    draining = start_draining;
    output = none;
  }

  -- `process_file` on a file that opens: the queues are cleared, the processor is reset.
  abbrev pub process_file : List CsvRow → OrderProcessor → Pipeline
  process_file rows processor =
      let produced = produce doubles (some rows) in
      start produced.producer_done produced.messages (reset processor)

  pub data Step (c : Capacities) (p : Pipeline) : Pipeline → Type 0 where
    -- `queue.push(message)` of the producer.
    push_inbound :
        (m : InboundOrderMsg doubles) (ms : List (InboundOrderMsg doubles))
        → p.to_push ≡ m ∷ ms
        → length p.inbound_queue < c.inbound_capacity
        → Step c p (record p { to_push = ms; inbound_queue = p.inbound_queue ++ m ∷ [] })
    -- `state.producer_done.store(true)`. Where `produce` throws, the flag is not set: nothing catches the
    -- exception, which ends the process; what other threads do until then is all that is left.
    finish_producer :
        p.to_push ≡ []
        → p.producer_returns ≡ true
        → p.producer_done ≡ false
        → Step c p (record p { producer_done = true })
    -- `inbound_queue.pop(message)`, and the turn: the pool gives an address that holds no order.
    pop_inbound :
        (turn : Turn doubles clock) (ms : List (InboundOrderMsg doubles)) (s : OrderProcessor)
        (outs : List OutboundReportMsg)
        → p.to_emit ≡ []
        → (p.got_end_of_stream && p.producer_done) ≡ false
        → p.inbound_queue ≡ turn.message ∷ ms
        → p.order_processor.engine.heap turn.address ≡ none
        → handle doubles clock turn p.order_processor ≡ some (s, outs)
        → Step c p (record p {
          inbound_queue = ms;
          order_processor = s;
          got_end_of_stream = p.got_end_of_stream || turn.message.end_of_stream;
          to_emit = outs;
        })
    -- `outbound_queue.push(output)`.
    push_outbound :
        (out : OutboundReportMsg) (outs : List OutboundReportMsg)
        → p.to_emit ≡ out ∷ outs
        → length p.outbound_queue < c.outbound_capacity
        → Step c p (record p { to_emit = outs; outbound_queue = p.outbound_queue ++ out ∷ [] })
    -- The loop of `consume` ends: `state.matcher_done.store(true)`.
    finish_matcher :
        p.to_emit ≡ []
        → (p.got_end_of_stream && p.producer_done) ≡ true
        → p.matcher_done ≡ false
        → Step c p (record p { matcher_done = true })
    -- `queue.pop(message)` of the writer, with the row.
    pop_outbound :
        (out : OutboundReportMsg) (outs : List OutboundReportMsg) (d : Draining)
        → p.outbound_queue ≡ out ∷ outs
        → p.output ≡ none
        → write_report out p.draining ≡ some d
        → Step c p (record p { outbound_queue = outs; draining = d })
    -- The loop of `drain` ends, and the file is closed.
    finish_writer :
        p.matcher_done ≡ true
        → p.outbound_queue ≡ []
        → p.output ≡ none
        → Step c p (record p { output = some (close p.draining) })

  pub data Reach (c : Capacities) (p : Pipeline) : Pipeline → Type 0 where
    here : Reach c p p
    later : {q r : Pipeline} → Reach c p q → Step c q r → Reach c p r
