-- ===== src/Tests/Strategies.antt =====
-- A bitmask exchange and a map exchange, both empty, receive the same bid.
use flower_exchange.Base.{ℕ, ◌≡◌, ◌≢◌, refl, arith, [], ◌∷◌, none, some, ◌==◌, if◌then◌else◌}
use flower_exchange.Types.{Text, Ptr}
use flower_exchange.OrderBook.Heap.{Heap}
use flower_exchange.OrderBook.Levels.{Levels, relevel, IsOutside, SameOrders}
use flower_exchange.OrderBook.Interface.{OrderBook, OrderBookLaws}
use flower_exchange.OrderBook.Queues.{join}
use flower_exchange.OrderBook.Bitmask.{init}
use flower_exchange.OrderBook.Bitmask.Rep.{init-IsBook}
use flower_exchange.OrderBook.Bitmask.Strategy.{bitmask_strategy, bitmask_laws}
use flower_exchange.OrderBook.Map.Strategy.{
  map_strategy, map_laws, IsMapBook, push_back-IsMapBook, map_add-Joins, map_pop-Leaves,
}
use flower_exchange.OrderBook.Map.{
  MapOrderBook, push_back, add_order_known_valid, pop_order_known_valid,
}
use flower_exchange.Matching.Process.{IsArrival}
use flower_exchange.Matching.Idle.{idle, idle-HasMarkets, no_orders}
use flower_exchange.Matching.Agree.{Agrees, process_order-Agrees}
use flower_exchange.Tests.Books.{bid}

abbrev clock : ℕ → Text
clock k = b't' ∷ k ∷ []

abbrev lone_bid : Heap
lone_bid p = if p == 2 then some bid else none

module _ (strategy : OrderBook) (laws : OrderBookLaws strategy) where
  open strategy use {Book}
  open laws use {Rep, Fits}

  idle-IsArrival :
      (b : Book)
      → Rep b lone_bid (λ t. [])
      → Fits 70
      → IsArrival laws (idle laws lone_bid b) no_orders 2 bid
  idle-IsArrival b rep fits = record {
    markets = idle-HasMarkets laws lone_bid b rep;
    owned = λ p o other live. absurd (ground arith);
    uncrossed = λ k. tt;
    live = refl;
    fresh = λ s k. refl;
    listed = omega arith;
    positive = omega arith;
    fits_word = omega arith;
    fits = fits;
  }

bitmask-IsArrival :
    IsArrival (bitmask_laws 130) (idle (bitmask_laws 130) lone_bid (init 130)) no_orders 2 bid
unfolding bitmask_laws
bitmask-IsArrival =
    idle-IsArrival bitmask_strategy (bitmask_laws 130) (init 130) (init-IsBook 130 lone_bid)
      (omega arith)

empty-IsMapBook : IsMapBook [] lone_bid (λ t. [])
empty-IsMapBook = record {
  ascending = tt;
  same = refl;
  queues = record { nodup = λ t. tt; apart = λ p t u e f. absurd (ground arith) };
  live = λ p t e. absurd (ground arith);
}

map-IsArrival : IsArrival map_laws (idle map_laws lone_bid []) no_orders 2 bid
unfolding map_laws
map-IsArrival = idle-IsArrival map_strategy map_laws [] empty-IsMapBook (omega arith)

process_order-Agrees_example :
    Agrees
      (bitmask_laws 130)
      map_laws
      clock
      none
      (idle (bitmask_laws 130) lone_bid (init 130))
      (idle map_laws lone_bid [])
      no_orders
      2
      bid
process_order-Agrees_example =
    process_order-Agrees (bitmask_laws 130) map_laws clock none
      (idle (bitmask_laws 130) lone_bid (init 130)) (idle map_laws lone_bid []) no_orders 2 bid
      bitmask-IsArrival map-IsArrival

abbrev nothing : Levels
nothing t = []

map_add-Joins_example :
    (b : MapOrderBook) × (h : Heap) × (add_order_known_valid 70 (some 2) [] lone_bid ≡ some (b, h))
    × IsMapBook b h (join nothing 70 2)
    × SameOrders lone_bid h
    × ((q : Ptr) → q ≢ 2 → IsOutside q nothing → h q ≡ lone_bid q)
map_add-Joins_example =
    map_add-Joins 70 2 [] lone_bid nothing bid empty-IsMapBook (omega arith) (λ t. refl) refl

one_bid-IsMapBook : IsMapBook (push_back 70 2 []) lone_bid (join nothing 70 2)
one_bid-IsMapBook =
    let r =
      push_back-IsMapBook 70 2 [] lone_bid nothing empty-IsMapBook bid refl (omega arith)
        (λ t. refl) in
    record {
      ascending = r.ascending;
      same = r.same;
      queues = r.queues;
      live = λ p t e. (none, ground arith);
    }

map_pop-Leaves_example :
    (b : MapOrderBook) × (h : Heap) × (pop_order_known_valid 70 (push_back 70 2 []) lone_bid
      ≡ some (some 2, b, h))
    × IsMapBook b h (relevel (join nothing 70 2) 70 [])
    × SameOrders lone_bid h
    × ((q : Ptr) → q ≢ 2 → h q ≡ lone_bid q)
map_pop-Leaves_example =
    map_pop-Leaves 70 2 [] (push_back 70 2 []) lone_bid (join nothing 70 2) one_bid-IsMapBook refl
