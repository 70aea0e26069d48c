-- ===== src/OrderBook/Bitmask/Strategy.antt =====
-- The bitmask book as a strategy of the interface, and the contract that it fulfils.
use flower_exchange.Base.{
  ℕ, ◌<◌, ◌≡◌, ap, subst, List, [], ◌∷◌, some, none, ◌∙◌, get_elem?_of_lt, arith,
}
use flower_exchange.Types.{Order, Ptr, PriceTick}
use flower_exchange.OrderBook.Heap.{Heap}
use flower_exchange.OrderBook.Levels.{Levels, head_of}
use flower_exchange.OrderBook.Interface.{OrderBook, OrderBookLaws}
use flower_exchange.OrderBook.Bitmask.{BitmaskOrderBook}
use flower_exchange.OrderBook.Bitmask
use flower_exchange.OrderBook.Bitmask.Chain.{Chain, Chain-live}
use flower_exchange.OrderBook.Bitmask.Rep.{
  IsBook, IsBook-frame, occupied-lt, peek-head, first-IsLowest, last-IsHighest, Chain-head_of,
}
use flower_exchange.OrderBook.Bitmask.Add.{add-Joins}
use flower_exchange.OrderBook.Bitmask.Pop.{pop-Leaves}

abbrev pub bitmask_strategy : OrderBook
bitmask_strategy = record {
  Book = BitmaskOrderBook;
  add_order_known_valid = Bitmask.add_order_known_valid;
  peek_order_known_valid = Bitmask.peek_order_known_valid;
  pop_order_known_valid = Bitmask.pop_order_known_valid;
  find_first = Bitmask.find_first;
  find_last = Bitmask.find_last;
}

-- Popping an empty level changes nothing.
pub pop-nil :
    (n : ℕ) (t : PriceTick) (b : BitmaskOrderBook) (h : Heap) (levels : Levels)
    → IsBook n b h levels
    → t < n
    → levels t ≡ []
    → Bitmask.pop_order_known_valid t b h ≡ some (none, b, h)
unfolding Bitmask.pop_order_known_valid
pop-nil n t b h levels r lt empty =
    let (head, e) = get_elem?_of_lt b.price_levels t (rw r.levels_length lt) in
    let starts =
      e ∙ ap some (Chain-head_of h head (levels t) (r.chain t head e) ∙ ap head_of empty) in
    rw starts

pub first_live :
    (n : ℕ) (t : PriceTick) (p : Ptr) (ps : List Ptr) (b : BitmaskOrderBook) (h : Heap)
    (levels : Levels) (r : IsBook n b h levels) (full : levels t ≡ p ∷ ps)
    → (o : Order) × (h p ≡ some o)
first_live n t p ps b h levels r full =
    let lt = occupied-lt n b h levels r t (ground (arith, full)) in
    let (head, e) = get_elem?_of_lt b.price_levels t (rw r.levels_length lt) in
    Chain-live h head (p ∷ ps) p (subst (Chain h head) full (r.chain t head e)) (ground arith)

unfoldable pub bitmask_laws : ℕ → OrderBookLaws bitmask_strategy
bitmask_laws n = record {
  Fits = λ t. t < n;
  Rep = IsBook n;
  Rep-add = λ t p b h levels o r lt out live. add-Joins n b h levels t p o r lt out live;
  Rep-pop = λ t p ps b h levels r full.
      let (o, live) = first_live n t p ps b h levels r full in
      pop-Leaves n b h levels t p ps r full o live;
  pop-nil = pop-nil n;
  peek-head_of = λ t b h levels r lt. peek-head n b h levels r t lt;
  find_first-IsLowest = first-IsLowest n;
  find_last-IsHighest = last-IsHighest n;
  Rep-frame = IsBook-frame n;
  Rep-NoDup = λ b h levels r t. r.queues.nodup t;
  Rep-Fits = λ b h levels t r e. occupied-lt n b h levels r t e;
}
