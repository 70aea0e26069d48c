-- ===== src/Pipeline/Flow.antt =====
-- The invariant of every interleaving: where the messages are.
use flower_exchange.Base.{
  ℕ, ◌≤◌, ◌≡◌, refl, sym, ap, ◌∙◌, arith, Bool, true, false, ◌||◌, ◌&&◌, some, List, [], ◌∷◌, ◌++◌,
  map, length, length-append,
}
use flower_exchange.Types.{Text, order_book_tick_capacity}
use mathlib.Core.List.{append_assoc}
use flower_exchange.Doubles.{Doubles}
use flower_exchange.Doubles.Range.{DoubleLaws}
use flower_exchange.Messages.{InboundOrderMsg, OutboundReportMsg}
use flower_exchange.OrderBook.Bitmask.Strategy.{bitmask_laws}
use flower_exchange.Matching.Exchange.{World}
use flower_exchange.Matching.Process.{IsExchange}
use flower_exchange.Processor.Consume.{Turn, OrderProcessor, consume}
use flower_exchange.Processor.Run.{AllFree, world_run}
use flower_exchange.Writer.{start_draining, write_reports, close}
use flower_exchange.Pipeline.{
  Capacities, Pipeline, start, Step, push_inbound, finish_producer, pop_inbound, push_outbound,
  finish_matcher, pop_outbound, finish_writer, Reach, here, later,
}
use flower_exchange.Pipeline.Sequence.{
  none-IsFree, write_reports-snoc, consume-snoc, AllFree-snoc, consumed-IsExchange,
}

module _ (doubles : Doubles) (laws : DoubleLaws doubles) (clock : ℕ → Text) where
  abbrev pub message_of : Turn doubles clock → InboundOrderMsg doubles
  message_of turn = turn.message

  abbrev pub any_end : List (InboundOrderMsg doubles) → Bool
  any_end [] = false
  any_end (m ∷ ms) = m.end_of_stream || any_end ms

  taken-snoc :
      (turns : List (Turn doubles clock)) (turn : Turn doubles clock)
      (rest : List (InboundOrderMsg doubles))
      → map message_of (turns ++ turn ∷ []) ++ rest ≡ map message_of turns ++ (turn.message ∷ rest)
  taken-snoc [] turn rest = refl
  taken-snoc (t ∷ turns) turn rest = ap (λ r. t.message ∷ r) (taken-snoc turns turn rest)

  any_end-snoc :
      (turns : List (Turn doubles clock)) (turn : Turn doubles clock)
      → any_end (map message_of (turns ++ turn ∷ []))
        ≡ (any_end (map message_of turns) || turn.message.end_of_stream)
  any_end-snoc [] turn = ground arith
  any_end-snoc (t ∷ turns) turn = rw (any_end-snoc turns turn) (ground arith)

  emitted :
      (written queue now outs : List OutboundReportMsg)
      → now ≡ []
      → (written ++ (queue ++ now)) ++ outs ≡ written ++ (queue ++ outs)
  emitted written queue now outs e =
      append_assoc written (queue ++ now) outs
      ∙ ap (λ t. written ++ t) (append_assoc queue now outs ∙ ap (λ t. queue ++ (t ++ outs)) e)

  some_inj : {a b : Text} → some a ≡ some b → a ≡ b
  some_inj e = cc

  -- `turns` are the messages that the matcher took, `written` those that the writer took.
  pub record IsFlow (c : Capacities) (msgs : List (InboundOrderMsg doubles)) (s0 : OrderProcessor)
      (w : World) (p : Pipeline doubles clock) : Type 0 where
    pub turns : List (Turn doubles clock)
    pub written : List OutboundReportMsg
    pub taken : map message_of turns ++ (p.inbound_queue ++ p.to_push) ≡ msgs
    pub frees : AllFree doubles laws clock turns s0.next_oid w
    pub consumed :
        consume doubles clock turns s0
        ≡ some (p.order_processor, written ++ (p.outbound_queue ++ p.to_emit))
    pub rows_written : write_reports written start_draining ≡ some p.draining
    pub returns : p.producer_returns ≡ true
    pub got : p.got_end_of_stream ≡ any_end (map message_of turns)
    pub pushed_all : p.producer_done ≡ true → p.to_push ≡ []
    pub matched_all :
        p.matcher_done ≡ true → (p.got_end_of_stream && p.producer_done ≡ true) × (p.to_emit ≡ [])
    pub closed :
        (text : Text)
        → p.output ≡ some text
        → (p.matcher_done ≡ true) × (p.outbound_queue ≡ []) × (text ≡ close p.draining)
    pub inbound_fits : length p.inbound_queue ≤ c.inbound_capacity
    pub outbound_fits : length p.outbound_queue ≤ c.outbound_capacity

  module _ (c : Capacities) (msgs : List (InboundOrderMsg doubles)) (s0 : OrderProcessor)
      (w : World) where
    start-IsFlow : IsFlow c msgs s0 w (start doubles clock true msgs s0)
    unfolding consume write_reports
    start-IsFlow = record {
      turns = [];
      written = [];
      taken = refl;
      frees = tt;
      consumed = refl;
      rows_written = refl;
      returns = refl;
      got = refl;
      pushed_all = λ e. absurd (ground arith);
      matched_all = λ e. absurd (ground arith);
      closed = λ text e. absurd (ground arith);
      inbound_fits = omega arith;
      outbound_fits = omega arith;
    }

    module _ (x : IsExchange (bitmask_laws order_book_tick_capacity) s0.engine w) where
      Step-IsFlow :
          {p q : Pipeline doubles clock}
          → IsFlow c msgs s0 w p
          → Step doubles clock c p q
          → IsFlow c msgs s0 w q
      Step-IsFlow {p} f (push_inbound m ms e room) = record {
        turns = f.turns;
        written = f.written;
        taken =
            ap (λ t. map message_of f.turns ++ t)
              (append_assoc p.inbound_queue (m ∷ []) ms ∙ ap (λ t. p.inbound_queue ++ t) (sym e))
            ∙ f.taken;
        frees = f.frees;
        consumed = f.consumed;
        rows_written = f.rows_written;
        returns = f.returns;
        got = f.got;
        pushed_all = λ t. absurd (ground (arith, f.pushed_all t, e));
        matched_all = f.matched_all;
        closed = f.closed;
        inbound_fits = omega (arith, room, length-append p.inbound_queue (m ∷ []));
        outbound_fits = f.outbound_fits;
      }
      Step-IsFlow {p} f (finish_producer e returns going) = record {
        turns = f.turns;
        written = f.written;
        taken = f.taken;
        frees = f.frees;
        consumed = f.consumed;
        rows_written = f.rows_written;
        returns = f.returns;
        got = f.got;
        pushed_all = λ t. e;
        matched_all = λ t. absurd (ground (arith, (f.matched_all t).0, going));
        closed = f.closed;
        inbound_fits = f.inbound_fits;
        outbound_fits = f.outbound_fits;
      }
      Step-IsFlow {p} f (pop_inbound turn ms s outs idle going e empty served) =
          let (exchange, _) =
            consumed-IsExchange doubles clock laws f.turns s0 p.order_processor _ w x f.frees
              f.consumed in
          let fits = f.inbound_fits in
          record {
            turns = f.turns ++ turn ∷ [];
            written = f.written;
            taken =
                taken-snoc f.turns turn (ms ++ p.to_push)
                ∙ ap (λ t. map message_of f.turns ++ (t ++ p.to_push)) (sym e)
                ∙ f.taken;
            frees = AllFree-snoc doubles clock laws f.turns turn s0.next_oid w f.frees (
                none-IsFree p.order_processor.engine
                  (world_run doubles laws clock f.turns s0.next_oid w) turn.address exchange empty);
            consumed =
                consume-snoc doubles clock f.turns turn s0 p.order_processor s _ outs f.consumed
                  served
                ∙ ap (λ o. some (s, o)) (emitted f.written p.outbound_queue p.to_emit outs idle);
            rows_written = f.rows_written;
            returns = f.returns;
            got = ap (λ g. g || turn.message.end_of_stream) f.got ∙ sym (any_end-snoc f.turns turn);
            pushed_all = f.pushed_all;
            matched_all = λ t. absurd (ground (arith, (f.matched_all t).0, going));
            closed = f.closed;
            inbound_fits = omega (arith, fits, ap length e);
            outbound_fits = f.outbound_fits;
          }
      Step-IsFlow {p} f (push_outbound out outs e room) = record {
        turns = f.turns;
        written = f.written;
        taken = f.taken;
        frees = f.frees;
        consumed =
            f.consumed
            ∙ ap (λ o. some (p.order_processor, f.written ++ o))
                (ap (λ t. p.outbound_queue ++ t) e
                  ∙ sym (append_assoc p.outbound_queue (out ∷ []) outs));
        rows_written = f.rows_written;
        returns = f.returns;
        got = f.got;
        pushed_all = f.pushed_all;
        matched_all = λ t. absurd (ground (arith, (f.matched_all t).1, e));
        closed = λ text o. absurd (ground (arith, (f.matched_all (f.closed text o).0).1, e));
        inbound_fits = f.inbound_fits;
        outbound_fits = omega (arith, room, length-append p.outbound_queue (out ∷ []));
      }
      Step-IsFlow {p} f (finish_matcher idle over going) = record {
        turns = f.turns;
        written = f.written;
        taken = f.taken;
        frees = f.frees;
        consumed = f.consumed;
        rows_written = f.rows_written;
        returns = f.returns;
        got = f.got;
        pushed_all = f.pushed_all;
        matched_all = λ t. (over, idle);
        closed = λ text o. let (_, e, same) = f.closed text o in (refl, e, same);
        inbound_fits = f.inbound_fits;
        outbound_fits = f.outbound_fits;
      }
      Step-IsFlow {p} f (pop_outbound out outs d e opened row) =
          let fits = f.outbound_fits in
          record {
            turns = f.turns;
            written = f.written ++ out ∷ [];
            taken = f.taken;
            frees = f.frees;
            consumed =
                f.consumed
                ∙ ap (λ o. some (p.order_processor, o))
                    (ap (λ t. f.written ++ (t ++ p.to_emit)) e
                      ∙ sym (append_assoc f.written (out ∷ []) (outs ++ p.to_emit)));
            rows_written =
                write_reports-snoc f.written out start_draining p.draining d f.rows_written row;
            returns = f.returns;
            got = f.got;
            pushed_all = f.pushed_all;
            matched_all = f.matched_all;
            closed = λ text o. absurd (ground (arith, o, opened));
            inbound_fits = f.inbound_fits;
            outbound_fits = omega (arith, fits, ap length e);
          }
      Step-IsFlow {p} f (finish_writer done empty opened) = record {
        turns = f.turns;
        written = f.written;
        taken = f.taken;
        frees = f.frees;
        consumed = f.consumed;
        rows_written = f.rows_written;
        returns = f.returns;
        got = f.got;
        pushed_all = f.pushed_all;
        matched_all = f.matched_all;
        closed = λ text o. (done, empty, sym (some_inj o));
        inbound_fits = f.inbound_fits;
        outbound_fits = f.outbound_fits;
      }

      pub Reach-IsFlow :
          {p : Pipeline doubles clock}
          → Reach doubles clock c (start doubles clock true msgs s0) p
          → IsFlow c msgs s0 w p
      Reach-IsFlow here = start-IsFlow
      Reach-IsFlow (later r st) = Step-IsFlow (Reach-IsFlow r) st
