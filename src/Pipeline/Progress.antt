-- ===== src/Pipeline/Progress.antt =====
-- The step that comes next, until the output is closed.
use mathlib.Core.WellFounded.{Acc}
use flower_exchange.Base.{
  ℕ, ◌<◌, ◌^◌, ◌≡◌, refl, sym, ap, ◌∙◌, subst, arith, inl, inr, ◌⊎◌, true, false, ◌&&◌, none, some,
  List, [], ◌∷◌, ◌++◌, map, length, ltb, Bool-cases, Option-cases,
}
use flower_exchange.Types.{Text}
use flower_exchange.Csv.{CsvRow}
use mathlib.Core.List.{append-nil}
use flower_exchange.Doubles.{Doubles}
use flower_exchange.Doubles.Range.{DoubleLaws}
use flower_exchange.Messages.{InboundOrderMsg, OutboundReportMsg}
use flower_exchange.Matching.Exchange.{World}
use flower_exchange.Matching.Idle.{no_orders}
use flower_exchange.Producer.{end_message}
use flower_exchange.Producer.Laws.{messages_of, ends}
use flower_exchange.Processor.Consume.{Turn, new_processor}
use flower_exchange.Processor.Run.{world_run, handle-Handles}
use flower_exchange.Processor.Start.{new_processor-IsExchange}
use flower_exchange.Writer.{Draining, row_text, write_report}
use flower_exchange.Writer.Rows.{row_text-length}
use flower_exchange.Writer.Drain.{write_report-pending}
use flower_exchange.Processor.Writable.{IsWritable}
use flower_exchange.Writer.Answers.{AllWritable}
use flower_exchange.Pipeline.{
  Capacities, Pipeline, process_file, Step, push_inbound, finish_producer, pop_inbound,
  push_outbound, finish_matcher, pop_outbound, finish_writer, Reach, here, later,
}
use flower_exchange.Pipeline.Flow.{message_of, any_end, IsFlow}
use flower_exchange.Pipeline.Exit.{outs_run-AllWritable, reached-IsFlow}
use flower_exchange.Pipeline.Halts.{Follows, Step-Acc}
use flower_exchange.Pipeline.Unused.{unused}
use flower_exchange.Pipeline.Sequence.{none-IsFree, consumed-IsExchange}

List-cases : {A : Type 0} (xs : List A) → (xs ≡ []) ⊎ ((x : A) × (ys : List A) × (xs ≡ x ∷ ys))
List-cases [] = inl refl
List-cases (x ∷ xs) = inr (x, xs, refl)

IsWritable-at :
    (before after : List OutboundReportMsg) (out : OutboundReportMsg)
    → AllWritable (before ++ out ∷ after)
    → IsWritable out
IsWritable-at [] after out (w, all) = w
IsWritable-at (m ∷ before) after out (w, all) = IsWritable-at before after out all

written :
    (out : OutboundReportMsg) (d : Draining)
    → IsWritable out
    → (d' : Draining) × (write_report out d ≡ some d')
written out d (h, price) =
    let short = row_text-length out h price in
    let fits : ltb 320 (length (row_text out)) ≡ false = ground arith in
    let (d', e, _) = write_report-pending out d fits in (d', e)

module _ (doubles : Doubles) (laws : DoubleLaws doubles) (clock : ℕ → Text) where
  any_end-last :
      (ms : List (InboundOrderMsg doubles))
      → any_end doubles laws clock (ms ++ end_message doubles ∷ []) ≡ true
  any_end-last [] = refl
  any_end-last (m ∷ ms) = ground (arith, any_end-last ms)

  module _ (c : Capacities) (body : List (InboundOrderMsg doubles)) (p : Pipeline doubles clock)
      (f : IsFlow doubles laws clock c (body ++ end_message doubles ∷ []) new_processor no_orders p)
      (inbound_room : 0 < c.inbound_capacity) (outbound_room : 0 < c.outbound_capacity)
      (opened : p.output ≡ none) where
    abbrev Moves : Type 0
    Moves = (q : Pipeline doubles clock) × Step doubles clock c p q

    -- The writer takes what is there.
    writer-Moves :
        (out : OutboundReportMsg) (outs : List OutboundReportMsg)
        → p.outbound_queue ≡ out ∷ outs
        → Moves
    writer-Moves out outs e =
        let (_, same) =
          consumed-IsExchange doubles clock laws f.turns new_processor p.order_processor _ no_orders
            new_processor-IsExchange f.frees f.consumed in
        let all : AllWritable (f.written ++ (out ∷ (outs ++ p.to_emit))) =
          subst (λ t. AllWritable (f.written ++ (t ++ p.to_emit))) e
            (subst AllWritable (sym same)
              (outs_run-AllWritable doubles laws clock f.turns 1 no_orders)) in
        let (d, row) =
          written out p.draining (IsWritable-at f.written (outs ++ p.to_emit) out all) in
        (_, pop_outbound out outs d e opened row)

    -- The matcher serves the message that is next.
    matcher-Moves :
        (m : InboundOrderMsg doubles) (ms : List (InboundOrderMsg doubles))
        → p.to_emit ≡ []
        → (p.got_end_of_stream && p.producer_done) ≡ false
        → p.inbound_queue ≡ m ∷ ms
        → Moves
    matcher-Moves m ms idle going e =
        let (x, _) =
          consumed-IsExchange doubles clock laws f.turns new_processor p.order_processor _ no_orders
            new_processor-IsExchange f.frees f.consumed in
        let w : World = world_run doubles laws clock f.turns 1 no_orders in
        let (a, empty) = unused p.order_processor.engine w x in
        let turn : Turn doubles clock = record { message = m; timestamp = []; address = a } in
        let (s, served, _, _) =
          handle-Handles doubles laws clock turn p.order_processor w x
            (none-IsFree p.order_processor.engine w a x empty) in
        (_, pop_inbound turn ms s _ idle going e empty served)

    -- With nothing left to push or to take, the end of the stream was taken.
    got_end : p.inbound_queue ≡ [] → p.to_push ≡ [] → p.got_end_of_stream ≡ true
    got_end none_there none_left =
        let all : map (message_of doubles laws clock) f.turns ++ []
            ≡ body ++ end_message doubles ∷ [] =
          subst
            (λ t.
              map (message_of doubles laws clock) f.turns ++ t ≡ body ++ end_message doubles ∷ [])
            (rw (none_there, none_left) refl) f.taken in
        f.got
        ∙ ap (any_end doubles laws clock)
            (sym (append-nil (map (message_of doubles laws clock) f.turns)) ∙ all)
        ∙ any_end-last body

    -- The matcher waits: its queue is empty.
    waiting-Moves :
        p.to_emit ≡ []
        → (p.got_end_of_stream && p.producer_done) ≡ false
        → p.inbound_queue ≡ []
        → Moves
    waiting-Moves idle going none_there = elim (List-cases p.to_push) [
      | inr (m, ms, e) ↦
          (_, push_inbound m ms e (omega (arith, inbound_room, ap length none_there)))
      | inl none_left ↦ elim (Bool-cases p.producer_done) [
        | inr busy ↦ (_, finish_producer none_left f.returns busy)
        | inl done ↦ absurd (ground (arith, got_end none_there none_left))
      ]
    ]

    matching-Moves : p.to_emit ≡ [] → (p.got_end_of_stream && p.producer_done) ≡ false → Moves
    matching-Moves idle going = elim (List-cases p.inbound_queue) [
      | inl none_there ↦ waiting-Moves idle going none_there
      | inr (m, ms, e) ↦ matcher-Moves m ms idle going e
    ]

    drained-Moves : p.outbound_queue ≡ [] → Moves
    drained-Moves empty = elim (List-cases p.to_emit) [
      | inr (out, outs, e) ↦
          (_, push_outbound out outs e (omega (arith, outbound_room, ap length empty)))
      | inl idle ↦ elim (Bool-cases p.matcher_done) [
        | inl done ↦ (_, finish_writer done empty opened)
        | inr busy ↦ elim (Bool-cases (p.got_end_of_stream && p.producer_done)) [
          | inl over ↦ (_, finish_matcher idle over busy)
          | inr going ↦ matching-Moves idle going
        ]
      ]
    ]

    pub flow-Moves : Moves
    flow-Moves = elim (List-cases p.outbound_queue) [
      | inl empty ↦ drained-Moves empty
      | inr (out, outs, e) ↦ writer-Moves out outs e
    ]

  -- The run goes on to a state whose output is closed.
  abbrev pub Finishes : Capacities → Pipeline doubles clock → Type 0
  Finishes c p =
      (q : Pipeline doubles clock) × Reach doubles clock c p q
      × ((text : Text) × (q.output ≡ some text))

  abbrev pub GoesOn : Capacities → Pipeline doubles clock → Type 0
  GoesOn c p =
      ((text : Text) × (p.output ≡ some text))
      ⊎ ((q : Pipeline doubles clock) × Step doubles clock c p q)

  -- Over doubles that keep `DoubleLaws`, on a new processor, for a file of fewer than 2 ^ 64 rows that are all readable behind the header,
  -- and queues with room for a message at least: in every state that any interleaving reaches, the
  -- output is closed or some thread can take a step, so the pipeline is never stuck.
  pub process_file-GoesOn :
      (c : Capacities) (input : List CsvRow) (p : Pipeline doubles clock)
      → length input < 2 ^ 64
      → ends doubles input ≡ true
      → 0 < c.inbound_capacity
      → 0 < c.outbound_capacity
      → Reach doubles clock c (process_file doubles clock input new_processor) p
      → GoesOn c p
  process_file-GoesOn c input p small whole a b r = elim (Option-cases p.output) [
    | inr (text, closed) ↦ inl (text, closed)
    | inl opened ↦ inr (
        flow-Moves c (messages_of doubles input) p
          (reached-IsFlow doubles laws clock c input p small whole r) a b opened)
  ]

  front :
      (c : Capacities) {p q r : Pipeline doubles clock}
      → Step doubles clock c p q
      → Reach doubles clock c q r
      → Reach doubles clock c p r
  front c st here = later here st
  front c st (later r s) = later (front c st r) s

  finishes_from :
      (c : Capacities) (input : List CsvRow) (p : Pipeline doubles clock)
      → length input < 2 ^ 64
      → ends doubles input ≡ true
      → 0 < c.inbound_capacity
      → 0 < c.outbound_capacity
      → Reach doubles clock c (process_file doubles clock input new_processor) p
      → Acc (Follows doubles clock c) p
      → Finishes c p
  finishes_from c input p small whole a b r (Acc.intro _ smaller) =
      elim (process_file-GoesOn c input p small whole a b r) [
        | inl closed ↦ (p, here, closed)
        | inr (q, st) ↦
            let (z, rest, closed) =
              finishes_from c input q small whole a b (later r st) (smaller q st) in
            (z, front c st rest, closed)
      ]

  -- Over doubles that keep `DoubleLaws`, on a new processor, for a file of fewer than 2 ^ 64 rows that
  -- are all readable behind the header, and queues with room for a message at least: from every state
  -- that any interleaving reaches, the pipeline gets to a state whose output is closed.
  pub process_file-Finishes :
      (c : Capacities) (input : List CsvRow) (p : Pipeline doubles clock)
      → length input < 2 ^ 64
      → ends doubles input ≡ true
      → 0 < c.inbound_capacity
      → 0 < c.outbound_capacity
      → Reach doubles clock c (process_file doubles clock input new_processor) p
      → Finishes c p
  process_file-Finishes c input p small whole a b r =
      finishes_from c input p small whole a b r (Step-Acc doubles clock c p)
