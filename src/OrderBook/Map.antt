-- ===== src/OrderBook/Map.antt =====
-- src/matching/map_order_book.cpp: price levels in a std::map, each a deque. The map is the list of
-- its entries in ascending order of their keys, a deque the list of its orders.
pub mod Levels
pub mod Strategy
use flower_exchange.Base.{
  ℕ, suc, ◌-◌, ◌^◌, Bool, true, false, Option, none, some, List, [], ◌∷◌, ◌++◌, ltb, ◌==◌,
  if◌then◌else◌, ◌>>=◌, ℤ, pos, negsuc,
}
use flower_exchange.Types.{Ptr, PriceTick}
use flower_exchange.OrderBook.Heap.{Heap, set_next}

pub record Level : Type 0 where
  pub tick : PriceTick
  pub orders : List Ptr

abbrev pub MapOrderBook : Type 0
MapOrderBook = List Level

-- `static_cast<int64_t>(tick)`.
abbrev pub to_int64 : PriceTick → ℤ
to_int64 t = if ltb t (2 ^ 63) then pos t else negsuc (2 ^ 64 - 1 - t)

-- `price_levels_[tick].push_back(order)`: a missing entry is made first.
unfoldable pub push_back : PriceTick → Ptr → MapOrderBook → MapOrderBook
push_back t p [] = record { tick = t; orders = p ∷ [] } ∷ []
push_back t p (l ∷ ls) =
    let rest = push_back t p ls in
    if ltb t l.tick
    then record { tick = t; orders = p ∷ [] } ∷ l ∷ ls
    else if t == l.tick
    then record l { orders = l.orders ++ p ∷ [] } ∷ ls
    else l ∷ rest

-- `price_levels_.find(tick)`.
unfoldable pub find : PriceTick → MapOrderBook → Option (List Ptr)
find t [] = none
find t (l ∷ ls) = let rest = find t ls in if t == l.tick then some l.orders else rest

-- `level->second.pop_front()`, and the level is erased if that leaves it empty.
unfoldable pub pop_front : PriceTick → MapOrderBook → MapOrderBook
pop_front t [] = []
pop_front t (l ∷ ls) =
    let rest = pop_front t ls in
    if t == l.tick
    then elim l.orders [
      | [] ↦ ls
      | p ∷ ps ↦ elim ps [ [] ↦ ls | q ∷ qs ↦ record { tick = l.tick; orders = q ∷ qs } ∷ ls ]
    ]
    else l ∷ rest

unfoldable pub add_order_known_valid :
    PriceTick → Option Ptr → MapOrderBook → Heap → Option (MapOrderBook × Heap)
add_order_known_valid t none b h = some (b, h)
add_order_known_valid t (some order) b h = do
  h ← set_next order none h
  some (push_back t order b, h)

unfoldable pub front : Option (List Ptr) → Option Ptr
front none = none
front (some []) = none
front (some (p ∷ ps)) = some p

unfoldable pub peek_order_known_valid : PriceTick → MapOrderBook → Option (Option Ptr)
peek_order_known_valid t b = some (front (find t b))

unfoldable pub pop_order_known_valid :
    PriceTick → MapOrderBook → Heap → Option (Option Ptr × MapOrderBook × Heap)
pop_order_known_valid t b h = elim (front (find t b)) [
  | none ↦ some (none, b, h)
  | some head ↦ do h ← set_next head none h; some (some head, pop_front t b, h)
]

unfoldable pub find_first : MapOrderBook → ℤ
find_first [] = negsuc 0
find_first (l ∷ ls) = to_int64 l.tick

unfoldable pub find_last : MapOrderBook → ℤ
find_last [] = negsuc 0
find_last (l ∷ ls) = let rest = find_last ls in elim ls [ [] ↦ to_int64 l.tick | _ ∷ _ ↦ rest ]
