-- ===== src/Matching/Settle.antt =====
-- What follows the loop of `process_order`, on both of its branches.
use flower_exchange.Base.{
  ℕ, ◌≡◌, true, false, [], ◌∷◌, ◌++◌, Option, none, some, ltb, if◌then◌else◌, length, get_elem?,
}
use flower_exchange.Types.{Text, Ptr, Side, Order, new}
use flower_exchange.OrderBook.Heap.{Heap, write}
use flower_exchange.OrderBook.Interface.{OrderBook}
use flower_exchange.Matching.{Engine, Matching, books_of, with_book, settle, report_on}
use flower_exchange.Matching.Round.{deallocate-some}

module _ (strategy : OrderBook) (clock : ℕ → Text) (event_timestamp : Option Text) (incoming : Ptr)
    (idx : ℕ) (side : Side) (s : Matching strategy) (e : Engine strategy) (i : Order)
    (live : s.heap incoming ≡ some i) where
  open strategy use {Book, add_order_known_valid}

  pub settle-free :
      ltb 0 i.quantity ≡ false
      → settle strategy clock event_timestamp incoming idx side s e
        ≡ some (record e { heap = write s.heap incoming none }, s.reports)
  unfolding settle
  settle-free filled = rw (live, filled, deallocate-some incoming s.heap i live)

  pub settle-rest :
      (own b : Book) (h : Heap) (j : Order)
      → ltb 0 i.quantity ≡ true
      → get_elem? (books_of strategy side e) idx ≡ some own
      → add_order_known_valid i.price (some incoming) own s.heap ≡ some (b, h)
      → h incoming ≡ some j
      → settle strategy clock event_timestamp incoming idx side s e
        ≡ some (
          with_book strategy side idx b h e,
          if s.matched_any
              then s.reports
              else s.reports
                ++ report_on (clock (length s.reports)) event_timestamp j j.price j.quantity new
                  ∷ [],
        )
  unfolding settle
  settle-rest own b h j left found adds after = rw (live, left, found, adds, after)
