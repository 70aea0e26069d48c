-- ===== src/OrderBook/Interface.antt =====
-- src/matching/order_book.h: the strategy interface, and the contract that the engine relies on.
use flower_exchange.Base.{◌≡◌, ◌≢◌, List, [], ◌∷◌, ◌++◌, Option, none, some, ℤ}
use flower_exchange.Types.{Ptr, PriceTick, Order}
use flower_exchange.OrderBook.Heap.{Heap}
use flower_exchange.OrderBook.Levels.{
  Levels, has_order, head_of, NoDup, relevel, IsOutside, SameLinks, SameOrders, IsLowest, IsHighest,
}

-- The virtual functions of `OrderBook`, as calls that may fault.
pub record OrderBook : Type 1 where
  pub Book : Type 0
  pub add_order_known_valid : PriceTick → Option Ptr → Book → Heap → Option (Book × Heap)
  pub peek_order_known_valid : PriceTick → Book → Option (Option Ptr)
  pub pop_order_known_valid : PriceTick → Book → Heap → Option (Option Ptr × Book × Heap)
  pub find_first : Book → ℤ
  pub find_last : Book → ℤ

-- The contract: `Rep b h levels` says that `b` stands for `levels` in the heap `h`.
module _ (strategy : OrderBook) where
  open strategy use {
    Book, add_order_known_valid, peek_order_known_valid, pop_order_known_valid, find_first,
    find_last,
  }

  pub record OrderBookLaws : Type 1 where
    pub Fits : PriceTick → Type 0
    pub Rep : Book → Heap → Levels → Type 0
    pub Rep-add :
        (t : PriceTick) (p : Ptr) (b : Book) (h : Heap) (levels : Levels) (o : Order)
        → Rep b h levels
        → Fits t
        → IsOutside p levels
        → h p ≡ some o
        → (b' : Book) × (h' : Heap) × (add_order_known_valid t (some p) b h ≡ some (b', h'))
          × Rep b' h' (relevel levels t (levels t ++ p ∷ []))
          × SameOrders h h'
          × ((q : Ptr) → q ≢ p → IsOutside q levels → h' q ≡ h q)
    pub Rep-pop :
        (t : PriceTick) (p : Ptr) (ps : List Ptr) (b : Book) (h : Heap) (levels : Levels)
        → Rep b h levels
        → levels t ≡ p ∷ ps
        → (b' : Book) × (h' : Heap) × (pop_order_known_valid t b h ≡ some (some p, b', h'))
          × Rep b' h' (relevel levels t ps)
          × SameOrders h h'
          × ((q : Ptr) → q ≢ p → h' q ≡ h q)
    pub pop-nil :
        (t : PriceTick) (b : Book) (h : Heap) (levels : Levels)
        → Rep b h levels
        → Fits t
        → levels t ≡ []
        → pop_order_known_valid t b h ≡ some (none, b, h)
    pub peek-head_of :
        (t : PriceTick) (b : Book) (h : Heap) (levels : Levels)
        → Rep b h levels
        → Fits t
        → peek_order_known_valid t b ≡ some (head_of (levels t))
    pub find_first-IsLowest :
        (b : Book) (h : Heap) (levels : Levels) → Rep b h levels → IsLowest levels (find_first b)
    pub find_last-IsHighest :
        (b : Book) (h : Heap) (levels : Levels) → Rep b h levels → IsHighest levels (find_last b)
    pub Rep-frame :
        (b : Book) (h h' : Heap) (levels : Levels)
        → Rep b h levels
        → SameLinks levels h h'
        → Rep b h' levels
    pub Rep-NoDup :
        (b : Book) (h : Heap) (levels : Levels)
        → Rep b h levels
        → (t : PriceTick) → NoDup (levels t)
    pub Rep-Fits :
        (b : Book) (h : Heap) (levels : Levels) (t : PriceTick)
        → Rep b h levels
        → has_order (levels t) ≡ 1
        → Fits t
