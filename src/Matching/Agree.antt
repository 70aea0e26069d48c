-- ===== src/Matching/Agree.antt =====
-- Two book strategies that keep the contract cannot be told apart by the reports.
use flower_exchange.Base.{ℕ, ◌≡◌, Option, some, List}
use flower_exchange.Types.{Text, Ptr, Order, ExecutionReport}
use flower_exchange.OrderBook.Interface.{OrderBook, OrderBookLaws}
use flower_exchange.Matching.{Engine, process_order}
use flower_exchange.Matching.Exchange.{World}
use flower_exchange.Matching.Process.{IsArrival, IsExchange, world_after}
use flower_exchange.Matching.Arrival.{process_order-Serves}

module _ {first second : OrderBook} (laws : OrderBookLaws first) (laws' : OrderBookLaws second)
    (clock : ℕ → Text) (event_timestamp : Option Text) where
  -- Both engines return, with the same reports, and stand for the same markets again.
  abbrev pub Agrees : Engine first → Engine second → World → Ptr → Order → Type 0
  Agrees e e' w incoming i =
      (a : Engine first) × (a' : Engine second) × (reports : List ExecutionReport) × (process_order
          first clock event_timestamp incoming e
        ≡ some (a, reports))
      × (process_order second clock event_timestamp incoming e' ≡ some (a', reports))
      × IsExchange laws a (world_after incoming i w)
      × IsExchange laws' a' (world_after incoming i w)

  -- Two engines over any two strategies that keep the contract, which stand for the same markets
  -- and receive the same order: both calls return, their reports are the same, and the engines
  -- stand for the same markets again.
  pub process_order-Agrees :
      (e : Engine first) (e' : Engine second) (w : World) (incoming : Ptr) (i : Order)
      → IsArrival laws e w incoming i
      → IsArrival laws' e' w incoming i
      → Agrees e e' w incoming i
  process_order-Agrees e e' w incoming i arrival arrival' =
      let (a, returns, after) =
        process_order-Serves laws clock event_timestamp e w incoming i arrival in
      let (a', returns', after') =
        process_order-Serves laws' clock event_timestamp e' w incoming i arrival' in
      (a, a', _, returns, returns', after, after')
