-- ===== src/Pipeline/Sequence.antt =====
-- One turn more, and one row more, behind a list of them.
use flower_exchange.Base.{
  ℕ, ◌≡◌, refl, sym, ap, ◌∙◌, subst, arith, inl, inr, Option, none, some, List, [], ◌∷◌, ◌++◌,
  Bool-cases, >>=-eq-some,
}
use flower_exchange.Types.{Text, Ptr, order_book_tick_capacity}
use mathlib.Core.List.{append_assoc, append-nil}
use flower_exchange.Doubles.{Doubles}
use flower_exchange.Doubles.Range.{DoubleLaws}
use flower_exchange.Messages.{OutboundReportMsg}
use flower_exchange.OrderBook.Levels.{has}
use flower_exchange.OrderBook.Bitmask.Strategy.{bitmask_strategy, bitmask_laws}
use flower_exchange.Matching.{Engine}
use flower_exchange.Matching.Reference.{orders_of}
use flower_exchange.Matching.Exchange.{World, market-live}
use flower_exchange.Matching.Process.{IsExchange}
use flower_exchange.Processor.Consume.{Turn, OrderProcessor, handle, consume}
use flower_exchange.Processor.Handles.{IsFree}
use flower_exchange.Processor.Run.{AllFree, world_run, outs_run, consume-Consumes}
use flower_exchange.Writer.{Draining, write_report, write_reports}

pub none-IsFree :
    (e : Engine bitmask_strategy) (w : World) (p : Ptr)
    → IsExchange (bitmask_laws order_book_tick_capacity) e w
    → e.heap p ≡ none
    → IsFree p w
none-IsFree e w p x empty s k = elim (Bool-cases (has p (orders_of (w s k)))) [
  | inr out ↦ out
  | inl at ↦
      let (o, live) = market-live (bitmask_laws order_book_tick_capacity) e w s k p x.markets at in
      absurd (ground (arith, live, empty))
]

pub write_reports-snoc :
    (outs : List OutboundReportMsg) (out : OutboundReportMsg) (d d1 d2 : Draining)
    → write_reports outs d ≡ some d1
    → write_report out d1 ≡ some d2
    → write_reports (outs ++ out ∷ []) d ≡ some d2
unfolding write_reports
write_reports-snoc [] out d d1 d2 e one = let same : d ≡ d1 = ground arith in rw (same, one) refl
write_reports-snoc (m ∷ outs) out d d1 d2 e one =
    let (d', first, rest) = >>=-eq-some (write_report m d) (write_reports outs) e in
    rw first (write_reports-snoc outs out d' d1 d2 rest one)

value : {A : Type 0} → A → Option A → A
value a none = a
value a (some b) = b

-- Equal results of a call have equal components.
unpair :
    {A B : Type 0} (a c : A) (b d : B)
    → ◌≡◌ {A = Option (A × B)} (some (a, b)) (some (c, d))
    → (a ≡ c) × (b ≡ d)
unfolding value
unpair a c b d e = let p = ap (value (a, b)) e in (ap (λ x. x.0) p, ap (λ x. x.1) p)

module _ (doubles : Doubles) (clock : ℕ → Text) where
  pub consume-snoc :
      (turns : List (Turn doubles clock)) (turn : Turn doubles clock) (s s1 s2 : OrderProcessor)
      (outs more : List OutboundReportMsg)
      → consume doubles clock turns s ≡ some (s1, outs)
      → handle doubles clock turn s1 ≡ some (s2, more)
      → consume doubles clock (turns ++ turn ∷ []) s ≡ some (s2, outs ++ more)
  unfolding consume
  consume-snoc [] turn s s1 s2 outs more e one =
      let (same, none_yet) = unpair s s1 [] outs e in
      rw (same, one, append-nil more) (ap (λ o. some (s2, o ++ more)) none_yet)
  consume-snoc (t ∷ turns) turn s s1 s2 outs more e one =
      let ((s', now), first, e') = >>=-eq-some (handle doubles clock t s) _ e in
      let ((s'', then_outs), rest, e'') = >>=-eq-some (consume doubles clock turns s') _ e' in
      let (same, joined) = unpair s'' s1 (now ++ then_outs) outs e'' in
      let one' : handle doubles clock turn s'' ≡ some (s2, more) = rw same one in
      rw (first, consume-snoc turns turn s' s'' s2 then_outs more rest one')
        (ap (λ o. some (s2, o))
          (sym (append_assoc now then_outs more) ∙ ap (λ o. o ++ more) joined))

  module _ (laws : DoubleLaws doubles) where
    pub AllFree-snoc :
        (turns : List (Turn doubles clock)) (turn : Turn doubles clock) (number : ℕ) (w : World)
        → AllFree doubles laws clock turns number w
        → IsFree turn.address (world_run doubles laws clock turns number w)
        → AllFree doubles laws clock (turns ++ turn ∷ []) number w
    AllFree-snoc [] turn number w frees free = (free, tt)
    AllFree-snoc (t ∷ turns) turn number w (first, frees) free =
        (first, AllFree-snoc turns turn _ _ frees free)

    -- The engine stands for the markets of the turns that were consumed.
    pub consumed-IsExchange :
        (turns : List (Turn doubles clock)) (s0 s : OrderProcessor) (outs : List OutboundReportMsg)
        (w : World)
        → IsExchange (bitmask_laws order_book_tick_capacity) s0.engine w
        → AllFree doubles laws clock turns s0.next_oid w
        → consume doubles clock turns s0 ≡ some (s, outs)
        → IsExchange
            (bitmask_laws order_book_tick_capacity)
            s.engine
            (world_run doubles laws clock turns s0.next_oid w)
          × (outs ≡ outs_run doubles laws clock turns s0.next_oid w)
    consumed-IsExchange turns s0 s outs w x frees e =
        let (s', returns, _, x') = consume-Consumes doubles laws clock turns s0 w x frees in
        let (same, outs_same) = unpair s' s _ outs (sym returns ∙ e) in
        (
          subst
              (λ q.
                IsExchange (bitmask_laws order_book_tick_capacity) q.engine
                  (world_run doubles laws clock turns s0.next_oid w))
              same x',
          sym outs_same,
        )
