-- ===== src/Pipeline/Exit.antt =====
-- What the file holds when the writer has closed it, whatever the interleaving.
use flower_exchange.Base.{
  ℕ, suc, ◌<◌, ◌^◌, ◌≡◌, refl, sym, ap, ◌∙◌, subst, arith, true, false, some, if◌then◌else◌, List,
  [], ◌∷◌, ◌++◌, map, length,
}
use flower_exchange.Types.{Text}
use flower_exchange.Csv.{CsvRow}
use mathlib.Core.List.{append-nil}
use flower_exchange.Doubles.{Doubles}
use flower_exchange.Doubles.Range.{DoubleLaws}
use flower_exchange.Messages.{InboundOrderMsg}
use flower_exchange.Matching.Exchange.{World}
use flower_exchange.Matching.Idle.{no_orders}
use flower_exchange.Producer.{end_message}
use flower_exchange.Producer.Laws.{Numbered, messages_of, ends, produce-Produces}
use flower_exchange.Processor.Consume.{Turn, OrderProcessor, new_processor, reset, consume}
use flower_exchange.Processor.Handles.{next_number, world_handled}
use flower_exchange.Processor.Run.{AllFree, outs_run, Answers, outs_run-Answers}
use flower_exchange.Processor.Start.{new_processor-IsExchange}
use flower_exchange.Writer.{header, drain}
use flower_exchange.Writer.Drain.{rows, drain-rows}
use flower_exchange.Writer.Answers.{
  AllWritable, append-AllWritable, outs_handled-AllWritable, rows_fit-AllWritable,
}
use flower_exchange.Pipeline.{Capacities, Pipeline, start, process_file, Reach}
use flower_exchange.Pipeline.Flow.{message_of, any_end, IsFlow, Reach-IsFlow}
use flower_exchange.Pipeline.Sequence.{consumed-IsExchange}

module _ (doubles : Doubles) (laws : DoubleLaws doubles) (clock : ℕ → Text) where
  nil_of_append : (xs ys : List (InboundOrderMsg doubles)) → xs ++ ys ≡ [] → ys ≡ []
  nil_of_append [] ys e = e
  nil_of_append (x ∷ xs) ys e = absurd (ground arith)

  some_inj : {a b : Text} → some a ≡ some b → a ≡ b
  some_inj e = cc

  -- Once the end of the stream was taken, nothing is left.
  nothing-left :
      (ms rest body : List (InboundOrderMsg doubles)) (m : InboundOrderMsg doubles)
      → any_end doubles laws clock ms ≡ true
      → any_end doubles laws clock body ≡ false
      → ms ++ rest ≡ body ++ m ∷ []
      → rest ≡ []
  nothing-left [] rest body m got plain e = absurd (ground arith)
  nothing-left (a ∷ ms) rest [] m got plain e = nil_of_append ms rest (ground arith)
  nothing-left (a ∷ ms) rest (b ∷ body) m got plain e =
      let same : a ≡ b = ground arith in
      let flag : a.end_of_stream ≡ b.end_of_stream = ap (λ z. z.end_of_stream) same in
      nothing-left ms rest body m (ground arith) (ground arith) (ground arith)

  Numbered-any_end :
      (n : ℕ) (ms : List (InboundOrderMsg doubles))
      → Numbered doubles n ms
      → any_end doubles laws clock ms ≡ false
  Numbered-any_end n [] all = refl
  Numbered-any_end n (m ∷ ms) (_, more, all) = rw more (Numbered-any_end (suc n) ms all)

  pub outs_run-AllWritable :
      (turns : List (Turn doubles clock)) (number : ℕ) (w : World)
      → AllWritable (outs_run doubles laws clock turns number w)
  outs_run-AllWritable [] number w = tt
  outs_run-AllWritable (turn ∷ turns) number w =
      append-AllWritable _ _ (outs_handled-AllWritable doubles clock turn number w) (
        outs_run-AllWritable turns (next_number doubles clock turn.message number)
          (world_handled doubles clock turn number w))

  -- The file is what the processor alone answers to the messages of the input, row by row.
  abbrev pub Exits : List CsvRow → OrderProcessor → Text → Type 0
  Exits input s text =
      (turns : List (Turn doubles clock)) × (map (message_of doubles laws clock) turns
        ≡ messages_of doubles input ++ end_message doubles ∷ [])
      × AllFree doubles laws clock turns 1 no_orders
      × (consume doubles clock turns new_processor
          ≡ some (s, outs_run doubles laws clock turns 1 no_orders))
      × Answers doubles laws clock turns (outs_run doubles laws clock turns 1 no_orders)
      × (text ≡ header ++ rows (outs_run doubles laws clock turns 1 no_orders))

  module _ (c : Capacities) (body : List (InboundOrderMsg doubles)) (m : InboundOrderMsg doubles)
      (plain : any_end doubles laws clock body ≡ false) where
    -- The matcher that is done has taken every message.
    pub taken_all :
        (p : Pipeline doubles clock)
        → (f : IsFlow doubles laws clock c (body ++ m ∷ []) new_processor no_orders p)
        → p.matcher_done ≡ true
        → map (message_of doubles laws clock) f.turns ≡ body ++ m ∷ []
    taken_all p f done =
        let (over, _) = f.matched_all done in
        let got : any_end doubles laws clock (map (message_of doubles laws clock) f.turns) ≡ true =
          ground (arith, over, f.got) in
        let rest =
          nothing-left (map (message_of doubles laws clock) f.turns) (p.inbound_queue ++ p.to_push)
            body m got plain f.taken in
        sym (append-nil (map (message_of doubles laws clock) f.turns))
        ∙ ap (λ t. map (message_of doubles laws clock) f.turns ++ t) (sym rest)
        ∙ f.taken

  start-Exits :
      (c : Capacities) (input : List CsvRow) (p : Pipeline doubles clock) (text : Text)
      → IsFlow doubles laws clock c
          (messages_of doubles input ++ end_message doubles ∷ [])
          new_processor
          no_orders
          p
      → any_end doubles laws clock (messages_of doubles input) ≡ false
      → p.output ≡ some text
      → Exits input p.order_processor text
  unfolding drain
  start-Exits c input p text f plain out =
      let (done, empty, closed) = f.closed text out in
      let (_, idle) = f.matched_all done in
      let (_, outs) =
        consumed-IsExchange doubles clock laws f.turns new_processor p.order_processor _ no_orders
          new_processor-IsExchange f.frees f.consumed in
      let all : f.written ≡ f.written ++ (p.outbound_queue ++ p.to_emit) =
        rw (empty, idle, append-nil f.written) refl in
      let drained : drain f.written ≡ some text = rw (f.rows_written, closed) refl in
      let written : f.written ≡ outs_run doubles laws clock f.turns 1 no_orders = all ∙ outs in
      let whole : some text ≡ some (header ++ rows f.written) =
        sym drained
        ∙ drain-rows f.written (
            rows_fit-AllWritable f.written
              (subst AllWritable (sym written) (outs_run-AllWritable f.turns 1 no_orders))) in
      (
        f.turns,
        taken_all c (messages_of doubles input) (end_message doubles) plain p f done,
        f.frees,
        f.consumed ∙ ap (λ o. some (p.order_processor, o)) outs,
        outs_run-Answers doubles laws clock f.turns 1 no_orders,
        some_inj whole ∙ ap (λ o. header ++ rows o) written,
      )

  reset-new : reset new_processor ≡ new_processor
  unfolding reset
  reset-new = refl

  -- A file whose rows are all readable is one message for each row, and the end of the stream.
  pub process_file-start :
      (input : List CsvRow)
      → length input < 2 ^ 64
      → ends doubles input ≡ true
      → process_file doubles clock input new_processor
        ≡ start doubles clock true
            (messages_of doubles input ++ end_message doubles ∷ [])
            new_processor
  process_file-start input small whole =
      let (sent, returns, _, _) = produce-Produces doubles input small in
      let tail : (if ends doubles input then end_message doubles ∷ [] else [])
          ≡ end_message doubles ∷ [] =
        rw whole refl in
      rw (reset-new, sent, returns ∙ whole, tail) refl

  pub reached-IsFlow :
      (c : Capacities) (input : List CsvRow) (p : Pipeline doubles clock)
      → length input < 2 ^ 64
      → ends doubles input ≡ true
      → Reach doubles clock c (process_file doubles clock input new_processor) p
      → IsFlow doubles laws clock c
          (messages_of doubles input ++ end_message doubles ∷ [])
          new_processor
          no_orders
          p
  reached-IsFlow c input p small whole r =
      Reach-IsFlow doubles laws clock c _ new_processor no_orders new_processor-IsExchange
        (subst (λ q. Reach doubles clock c q p) (process_file-start input small whole) r)

  pub no_early_end :
      (input : List CsvRow)
      → length input < 2 ^ 64
      → any_end doubles laws clock (messages_of doubles input) ≡ false
  no_early_end input small =
      let (_, _, _, numbered) = produce-Produces doubles input small in
      Numbered-any_end 1 (messages_of doubles input) numbered

  -- Over doubles that keep `DoubleLaws`, on a new processor, for a file of fewer than 2 ^ 64 rows that are all readable behind the header,
  -- with any capacities and any interleaving: when the output is closed, the matcher has taken
  -- exactly the messages of the file, in order, its answers are those of the reference, in the order
  -- of the rows with at least one for each row, and the output is the header line and then the row of
  -- each answer, in order.
  pub process_file-Exits :
      (c : Capacities) (input : List CsvRow) (p : Pipeline doubles clock) (text : Text)
      → length input < 2 ^ 64
      → ends doubles input ≡ true
      → Reach doubles clock c (process_file doubles clock input new_processor) p
      → p.output ≡ some text
      → Exits input p.order_processor text
  process_file-Exits c input p text small whole r out =
      start-Exits c input p text (reached-IsFlow c input p small whole r) (no_early_end input small)
        out
