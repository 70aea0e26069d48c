-- ===== src/Processor/Run.antt =====
-- The turns of a file, one after the other: `handle` and `consume` against the reference.
use flower_exchange.Base.{
  ℕ, ◌+◌, ◌%◌, ◌^◌, ◌≡◌, refl, subst, inl, inr, true, ◌||◌, some, List, [], ◌∷◌, ◌++◌, Bool-cases,
  Option-cases,
}
use flower_exchange.Types.{Text, order_book_tick_capacity}
use flower_exchange.Doubles.{Doubles}
use flower_exchange.Doubles.Range.{DoubleLaws}
use flower_exchange.Messages.{OutboundReportMsg}
use flower_exchange.Processor.Consume.{Turn, OrderProcessor, handle, consume}
use flower_exchange.Processor.Reference.{made, answer, refusal}
use flower_exchange.Processor.Told.{order_of-made, reject-refusal}
use flower_exchange.OrderBook.Bitmask.Strategy.{bitmask_laws}
use flower_exchange.Matching.Exchange.{World}
use flower_exchange.Matching.Process.{IsExchange}
use flower_exchange.Processor.Handles.{
  AllSeq, emitted-AllSeq, some_out, some_out-map, reports_after-ne-nil, IsFree, validation,
  next_number, world_handled, outs_handled, submit-Serves, made-positive, v,
}

AllSeq-one : (seq : ℕ) (out : OutboundReportMsg) → out.seq ≡ seq → AllSeq seq (out ∷ [])
AllSeq-one seq out e = (e, tt)

module _ (doubles : Doubles) (laws : DoubleLaws doubles) (clock : ℕ → Text) where
  abbrev StandsFor : OrderProcessor → ℕ → World → Type 0
  StandsFor s number w =
      (s.next_oid ≡ number) × IsExchange (bitmask_laws order_book_tick_capacity) s.engine w

  -- A turn returns, with the messages and the state of the reference.
  abbrev pub Handles : Turn doubles clock → OrderProcessor → World → Type 0
  Handles turn s w =
      (s' : OrderProcessor) × (handle doubles clock turn s
        ≡ some (s', outs_handled doubles clock turn s.next_oid w))
      × (s'.next_oid ≡ next_number doubles clock turn.message s.next_oid)
      × IsExchange (bitmask_laws order_book_tick_capacity) s'.engine
          (world_handled doubles clock turn s.next_oid w)

  pub handle-Handles :
      (turn : Turn doubles clock) (s : OrderProcessor) (w : World)
      → IsExchange (bitmask_laws order_book_tick_capacity) s.engine w
      → IsFree turn.address w
      → Handles turn s w
  unfolding handle
  handle-Handles turn s w x free = elim (Bool-cases turn.message.end_of_stream) [
    | inl ends ↦ rw ends (s, refl, refl, x)
    | inr more ↦ elim (Option-cases (validation doubles clock turn.message)) [
      | inl valid ↦
          let (e', returns, after) =
            submit-Serves doubles clock laws turn.message s.next_oid valid turn.timestamp
              turn.address s.engine w x free in
          let s' : OrderProcessor = record { next_oid = (s.next_oid + 1) % 2 ^ 64; engine = e' } in
          rw
            (
              more,
              valid,
              order_of-made doubles clock laws turn.message s.next_oid
                  (v doubles clock laws turn.message s.next_oid valid),
            )
            (s', rw returns refl, refl, after)
      | inr (reason, bad) ↦
          let s' : OrderProcessor = record s { next_oid = (s.next_oid + 1) % 2 ^ 64 } in
          rw (more, bad, reject-refusal doubles clock turn.timestamp s.next_oid turn.message reason)
            (s', refl, refl, x)
    ]
  ]

  -- Every answer carries the row's number, and every row is answered.
  pub outs_handled-answer :
      (turn : Turn doubles clock) (number : ℕ) (w : World)
      → AllSeq turn.message.seq (outs_handled doubles clock turn number w)
        × ((turn.message.end_of_stream || some_out (outs_handled doubles clock turn number w))
            ≡ true)
  unfolding refusal
  outs_handled-answer turn number w = elim (Bool-cases turn.message.end_of_stream) [
    | inl ends ↦ rw ends (tt, refl)
    | inr more ↦ elim (Option-cases (validation doubles clock turn.message)) [
      | inl valid ↦
          rw (more, valid)
            (
              emitted-AllSeq turn.message.seq _,
              some_out-map (answer turn.message.seq) _ (
                  reports_after-ne-nil clock (some turn.timestamp)
                    (made doubles turn.message number) w
                    (made-positive doubles clock laws turn.message number valid)),
            )
      | inr (reason, bad) ↦ rw (more, bad) ((refl, tt), refl)
    ]
  ]

  -- The reference over a list of turns.
  abbrev pub world_run : List (Turn doubles clock) → ℕ → World → World
  world_run [] number w = w
  world_run (turn ∷ turns) number w =
      world_run turns (next_number doubles clock turn.message number)
        (world_handled doubles clock turn number w)

  abbrev pub outs_run : List (Turn doubles clock) → ℕ → World → List OutboundReportMsg
  outs_run [] number w = []
  outs_run (turn ∷ turns) number w =
      outs_handled doubles clock turn number w
      ++ outs_run turns (next_number doubles clock turn.message number)
          (world_handled doubles clock turn number w)

  -- Each turn's address is free when its turn comes.
  abbrev pub AllFree : List (Turn doubles clock) → ℕ → World → Type 0
  AllFree [] number w = Unit {0}
  AllFree (turn ∷ turns) number w =
      IsFree turn.address w
      × AllFree turns (next_number doubles clock turn.message number)
          (world_handled doubles clock turn number w)

  -- The answers to the rows stand in the order of the rows, at least one for each row.
  abbrev pub Answers : List (Turn doubles clock) → List OutboundReportMsg → Type 0
  Answers [] outs = outs ≡ []
  Answers (turn ∷ turns) outs =
      (first : List OutboundReportMsg) × (rest : List OutboundReportMsg) × (outs ≡ first ++ rest)
      × AllSeq turn.message.seq first
      × ((turn.message.end_of_stream || some_out first) ≡ true)
      × Answers turns rest

  pub outs_run-Answers :
      (turns : List (Turn doubles clock)) (number : ℕ) (w : World)
      → Answers turns (outs_run turns number w)
  outs_run-Answers [] number w = refl
  outs_run-Answers (turn ∷ turns) number w =
      let (seqs, answered) = outs_handled-answer turn number w in
      (
        outs_handled doubles clock turn number w,
        _,
        refl,
        seqs,
        answered,
        outs_run-Answers turns (next_number doubles clock turn.message number)
            (world_handled doubles clock turn number w),
      )

  -- A file is consumed: with the messages and the state of the reference.
  abbrev pub Consumes : List (Turn doubles clock) → OrderProcessor → World → Type 0
  Consumes turns s w =
      (s' : OrderProcessor) × (consume doubles clock turns s
        ≡ some (s', outs_run turns s.next_oid w))
      × Answers turns (outs_run turns s.next_oid w)
      × IsExchange (bitmask_laws order_book_tick_capacity) s'.engine (world_run turns s.next_oid w)

  -- Over doubles that keep `DoubleLaws`, from a processor that stands for `w`, with addresses that are free when their turns come: all turns
  -- are consumed with no fault, the answers to the rows stand in the order of the rows, each with its
  -- row's number and at least one for each row, and the engine stands for `world_run` in the end.
  pub consume-Consumes :
      (turns : List (Turn doubles clock)) (s : OrderProcessor) (w : World)
      → IsExchange (bitmask_laws order_book_tick_capacity) s.engine w
      → AllFree turns s.next_oid w
      → Consumes turns s w
  unfolding consume
  consume-Consumes [] s w x free = (s, refl, refl, x)
  consume-Consumes (turn ∷ turns) s w x (free, frees) =
      let (s1, returns, number, x1) = handle-Handles turn s w x free in
      let (s2, rest, _, x2) =
        consume-Consumes turns s1 (world_handled doubles clock turn s.next_oid w) x1
          (rw number frees) in
      (
        s2,
        rw (returns, rest, number),
        outs_run-Answers (turn ∷ turns) s.next_oid w,
        subst
            (λ n.
              IsExchange (bitmask_laws order_book_tick_capacity) s2.engine
                (world_run turns n (world_handled doubles clock turn s.next_oid w)))
            number x2,
      )
