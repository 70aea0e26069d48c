-- ===== src/Matching/Allocate.antt =====
-- An order is made in free memory: the exchange is ready for `process_order`.
use flower_exchange.Base.{◌^◌, ◌<◌, ◌≡◌, sym, ◌∙◌, arith, inl, inr, false, none, some, Bool-cases}
use flower_exchange.Types.{Ptr, Side, InstrumentType, Order, instrument_code}
use flower_exchange.OrderBook.Heap.{write}
use flower_exchange.OrderBook.Heap.Laws.{write_self, write-ne}
use flower_exchange.OrderBook.Levels.{has}
use flower_exchange.OrderBook.Interface.{OrderBook, OrderBookLaws}
use flower_exchange.Matching.{Engine}
use flower_exchange.Matching.Reference.{orders_of}
use flower_exchange.Matching.Exchange.{World, HasMarkets-heap, market-live}
use flower_exchange.Matching.Process.{IsExchange, IsArrival}

module _ {strategy : OrderBook} (laws : OrderBookLaws strategy) (e : Engine strategy) (w : World)
    (p : Ptr) (x : IsExchange laws e w) (free : e.heap p ≡ none) where
  open laws use {Fits}

  -- Free memory is in no market.
  free-outside : (s : Side) (k : InstrumentType) → has p (orders_of (w s k)) ≡ false
  free-outside s k = elim (Bool-cases (has p (orders_of (w s k)))) [
    | inl at ↦ let (o, live) = market-live laws e w s k p x.markets at in absurd (ground arith)
    | inr out ↦ out
  ]

  pub allocate-IsArrival :
      (i : Order)
      → instrument_code i.instrument < 5
      → 0 < i.quantity
      → i.quantity < 2 ^ 16
      → Fits i.price
      → IsArrival laws (record e { heap = write e.heap p (some i) }) w p i
  allocate-IsArrival i listed positive fits_word fits = record {
    markets =
        HasMarkets-heap laws e w (write e.heap p (some i)) x.markets
          (λ s k q l at. write-ne e.heap p (some i) q (ground (arith, free-outside s k)));
    owned = λ q o ne live. x.owned q o (sym (write-ne e.heap p (some i) q ne) ∙ live);
    uncrossed = x.uncrossed;
    live = write_self e.heap p (some i);
    fresh = free-outside;
    listed = listed;
    positive = positive;
    fits_word = fits_word;
    fits = fits;
  }
