-- ===== src/Tests/Books.antt =====
-- A bitmask book of 130 ticks, with a sell order of 10 at tick 5; a buy order of 25 is at hand.
use flower_exchange.Base.{
  ◌≡◌, ◌<◌, refl, sym, ap, subst, arith, [], ◌∷◌, Option, none, some, ℤ, pos, negsuc, ◌==◌,
  if◌then◌else◌, length,
}
use flower_exchange.Types.{Order, buy, sell, rose}
use flower_exchange.OrderBook.Heap.{Heap, set_next}
use flower_exchange.Bits.{trailing_zeros}
use flower_exchange.OrderBook.Levels.{Levels, IsLeast, IsGreatest}
use flower_exchange.OrderBook.Queues.{join}
use flower_exchange.OrderBook.Bitmask.{
  BitmaskOrderBook, init, add_order_known_valid, pop_order_known_valid, find_next_from,
  find_prev_from, open_level, keep_above, keep_below, scan_down,
}
use flower_exchange.OrderBook.Bitmask.Mask.{find_next_from_lem, find_prev_from_lem}
use flower_exchange.OrderBook.Bitmask.Rep.{IsBook, init-IsBook, occupied}
use flower_exchange.OrderBook.Bitmask.Add.{add-Joins, Joins}
use flower_exchange.OrderBook.Bitmask.Pop.{pop-Leaves, Leaves}

abbrev pub offer : Order
offer = record {
  oid = b'a' ∷ [];
  coid = b'c' ∷ [];
  instrument = rose;
  side = sell;
  price = 5;
  quantity = 10;
  next = none;
}

abbrev pub bid : Order
bid = record {
  oid = b'b' ∷ [];
  coid = b'd' ∷ [];
  instrument = rose;
  side = buy;
  price = 70;
  quantity = 25;
  next = none;
}

abbrev pub pool : Heap
pool p = if p == 1 then some offer else if p == 2 then some bid else none

abbrev nothing : Levels
nothing t = []

abbrev after : Option (BitmaskOrderBook × Heap) → BitmaskOrderBook × Heap
after none = (init 130, pool)
after (some s) = s

abbrev pub one_level : BitmaskOrderBook × Heap
one_level = after (add_order_known_valid 5 (some 1) (init 130) pool)

add-Joins_example :
    Joins 130
      (init 130)
      pool
      nothing
      5
      1
      offer
      (init-IsBook 130 pool)
      (omega arith)
      (λ t. refl)
      refl
      (add_order_known_valid 5 (some 1) (init 130) pool)
add-Joins_example =
    add-Joins 130 (init 130) pool nothing 5 1 offer (init-IsBook 130 pool) (omega arith) (λ t. refl)
      refl

pub one_level-IsBook : IsBook 130 one_level.0 one_level.1 (join nothing 5 1)
one_level-IsBook =
    let (b, h, returns, book, _, _) =
      add-Joins 130 (init 130) pool nothing 5 1 offer (init-IsBook 130 pool) (omega arith)
        (λ t. refl) refl in
    subst (λ s. IsBook 130 s.0 s.1 (join nothing 5 1)) (sym (ap after returns)) book

pub one_level-offer : one_level.1 1 ≡ some offer
unfolding add_order_known_valid init set_next open_level
one_level-offer = refl

pub one_level-bid : one_level.1 2 ≡ some bid
unfolding add_order_known_valid init set_next open_level
one_level-bid = refl

pop-Leaves_example :
    Leaves 130 one_level.0 one_level.1
      (join nothing 5 1)
      5
      1
      []
      one_level-IsBook
      refl
      offer
      one_level-offer
      (pop_order_known_valid 5 one_level.0 one_level.1)
pop-Leaves_example =
    pop-Leaves 130 one_level.0 one_level.1 (join nothing 5 1) 5 1 [] one_level-IsBook refl offer
      one_level-offer

one_level-length : length one_level.0.mask ≡ 3
unfolding add_order_known_valid init set_next open_level
one_level-length = refl

find_next_from_lem_example :
    (r : ℤ) × (find_next_from 2 one_level.0.mask ≡ some r)
    × IsLeast (occupied (join nothing 5 1)) 3 r
find_next_from_lem_example =
    find_next_from_lem (occupied (join nothing 5 1)) one_level.0.mask 2 one_level-IsBook.bits

find_prev_from_lem_example :
    (r : ℤ) × (find_prev_from 100 one_level.0.mask ≡ some r)
    × IsGreatest (occupied (join nothing 5 1)) 100 r
find_prev_from_lem_example =
    find_prev_from_lem (occupied (join nothing 5 1)) one_level.0.mask 100 one_level-IsBook.bits
      (subst (λ n. 1 < n) (sym one_level-length) (omega arith))

init-IsBook_example : IsBook 130 (init 130) pool nothing
init-IsBook_example = init-IsBook 130 pool

-- Runs.
found_next : find_next_from 2 one_level.0.mask ≡ some (pos 5)
unfolding add_order_known_valid init set_next open_level find_next_from keep_above trailing_zeros
found_next = refl

found_none : find_prev_from 5 one_level.0.mask ≡ some (negsuc 0)
unfolding add_order_known_valid init set_next open_level find_prev_from keep_below scan_down
found_none = refl
