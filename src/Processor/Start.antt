-- ===== src/Processor/Start.antt =====
-- `OrderProcessor()` and `reset`.
use flower_exchange.Base.{◌≡◌, refl, arith, true, none, some}
use flower_exchange.Types.{Ptr, Order, Side, InstrumentType, order_book_tick_capacity}
use flower_exchange.OrderBook.Levels.{has}
use flower_exchange.OrderBook.Bitmask.{init}
use flower_exchange.OrderBook.Bitmask.Rep.{init-IsBook}
use flower_exchange.OrderBook.Bitmask.Strategy.{bitmask_laws}
use flower_exchange.Matching.Reference.{orders_of}
use flower_exchange.Matching.Exchange.{World, HasMarkets, market-live}
use flower_exchange.Matching.Process.{IsExchange}
use flower_exchange.Matching.Idle.{idle-HasMarkets, no_orders}
use flower_exchange.Processor.Consume.{OrderProcessor, new_processor, reset}

-- A new processor stands for empty markets.
pub new_processor-IsExchange :
    IsExchange (bitmask_laws order_book_tick_capacity) new_processor.engine no_orders
unfolding bitmask_laws
new_processor-IsExchange = record {
  markets =
      idle-HasMarkets (bitmask_laws order_book_tick_capacity) (λ p. none)
        (init order_book_tick_capacity) (init-IsBook order_book_tick_capacity (λ p. none));
  owned = λ p o live. absurd (ground arith);
  uncrossed = λ k. tt;
}

pub reset-HasMarkets :
    (s : OrderProcessor)
    → HasMarkets (bitmask_laws order_book_tick_capacity) (reset s).engine no_orders
unfolding reset bitmask_laws
reset-HasMarkets s =
    idle-HasMarkets (bitmask_laws order_book_tick_capacity) s.engine.heap
      (init order_book_tick_capacity) (init-IsBook order_book_tick_capacity s.engine.heap)

abbrev pub Leaks : OrderProcessor → Ptr → Type 0
Leaks s p =
    HasMarkets (bitmask_laws order_book_tick_capacity) (reset s).engine no_orders
    × ((reset s).next_oid ≡ 1)
    × ((o : Order) × ((reset s).engine.heap p ≡ some o))
    × (¬ IsExchange (bitmask_laws order_book_tick_capacity) (reset s).engine no_orders)

-- `reset` starts the numbers at 1 again and leaves every market empty; but an order that rested
-- before is still live in the pool, though no book holds it any more.
pub reset-Leaks :
    (s : OrderProcessor) (w : World) (side : Side) (k : InstrumentType) (p : Ptr)
    → IsExchange (bitmask_laws order_book_tick_capacity) s.engine w
    → has p (orders_of (w side k)) ≡ true
    → Leaks s p
unfolding reset
reset-Leaks s w side k p x at =
    let (o, live) =
      market-live (bitmask_laws order_book_tick_capacity) s.engine w side k p x.markets at in
    (reset-HasMarkets s, refl, (o, live), λ y. absurd (ground (arith, y.owned p o live)))
