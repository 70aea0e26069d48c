-- ===== src/Matching.antt =====
-- src/matching/matching_engine.h: `MatchingEngine::process_order` over any book strategy. A book's
-- update through a reference is written back into its array. `emit_report` is the list of the
-- reports so far: each is allocated, handed over and freed at once. `clock k` is what the system
-- clock reads for the k-th report of the call; it counts only where no timestamp is given.
pub mod Reference
pub mod Priority
pub mod Market
pub mod Reports
pub mod Round
pub mod Trades
pub mod Loop
pub mod Spread
pub mod Exchange
pub mod After
pub mod Settle
pub mod Process
pub mod Arrival
pub mod Agree
pub mod Allocate
pub mod Idle
use flower_exchange.Base.{
  ℕ, zero, suc, ◌+◌, ◌-◌, ◌%◌, ◌^◌, min, Bool, true, false, not, Option, none, some, List, [], ◌∷◌,
  ◌++◌, length, get_elem?, set, ltb, leb, ◌==◌, if◌then◌else◌, ◌>>=◌, ℤ, pos, negsuc,
}
use flower_exchange.Types.{
  Text, Ptr, PriceTick, Side, buy, sell, Order, ExecStatus, new, fill, pfill, ExecutionReport,
  make_report, instrument_code,
}
use flower_exchange.OrderBook.Heap.{Heap, write, set_quantity}
use flower_exchange.OrderBook.Interface.{OrderBook}

-- `static_cast<uint16_t>(a - b)`.
abbrev pub sub16 : ℕ → ℕ → ℕ
sub16 a b = (a + 2 ^ 16 - b) % 2 ^ 16

-- `order_pool_.deallocate(p)`: freeing what is not live throws.
unfoldable pub deallocate : Ptr → Heap → Option Heap
unfolding write
deallocate p h = do o ← h p; some (write h p none)

abbrev pub status_of : ℕ → ExecStatus
status_of quantity = if quantity == 0 then fill else pfill

-- Whether a resting order at `best` is good enough for an incoming one at `price`.
abbrev pub crosses : Side → PriceTick → PriceTick → Bool
crosses buy best price = leb best price
crosses sell best price = leb price best

abbrev pub opposite : Side → Side
opposite buy = sell
opposite sell = buy

-- The report on one party of a trade, or on a new order.
unfoldable pub report_on : Text → Option Text → Order → PriceTick → ℕ → ExecStatus → ExecutionReport
report_on now timestamp o price quantity status =
    make_report now (some o.oid) (some o.coid) o.instrument o.side price quantity status (some [])
      timestamp

module _ (strategy : OrderBook) where
  open strategy use {
    Book, add_order_known_valid, peek_order_known_valid, pop_order_known_valid, find_first,
    find_last,
  }

  -- The books that the engine refers to, and the live orders of the pool.
  pub record Engine : Type 0 where
    pub buy_books : List Book
    pub sell_books : List Book
    pub heap : Heap

  -- `MatchingEngine(order_pool, report_pool, buy_books, sell_books)`.
  abbrev pub make_engine : Heap → List Book → List Book → Engine
  make_engine order_pool buy_books sell_books = record {
    buy_books = buy_books;
    sell_books = sell_books;
    heap = order_pool;
  }

  -- The state of the loop of `process_order`.
  pub record Matching : Type 0 where
    pub opp_book : Book
    pub heap : Heap
    pub matched_any : Bool
    pub reports : List ExecutionReport

  abbrev pub books_of : Side → Engine → List Book
  books_of buy e = e.buy_books
  books_of sell e = e.sell_books

  -- A book is updated through the reference that the engine holds.
  abbrev pub with_book : Side → ℕ → Book → Heap → Engine → Engine
  with_book side idx b h e = record {
    buy_books = elim side [ buy ↦ set e.buy_books idx b | sell ↦ e.buy_books ];
    sell_books = elim side [ buy ↦ e.sell_books | sell ↦ set e.sell_books idx b ];
    heap = h;
  }

  abbrev pub best_level : Side → Book → ℤ
  best_level buy opp = find_first opp
  best_level sell opp = find_last opp

  module _ (clock : ℕ → Text) (event_timestamp : Option Text) where
    -- `if (resting->quantity == 0)`.
    unfoldable pub drop_filled : PriceTick → Ptr → Matching → Option Matching
    drop_filled best_price resting s = do
      r ← s.heap resting
      if r.quantity == 0
          then (do
            (consumed, b, h) ← pop_order_known_valid best_price s.opp_book s.heap
            h ← deallocate resting h
            some (record s { opp_book = b; heap = h }))
          else some s

    -- One trade between the incoming order and a resting one.
    unfoldable pub trade : Ptr → PriceTick → Ptr → Matching → Option Matching
    trade incoming best_price resting s = do
      i ← s.heap incoming
      r ← s.heap resting
      let trade_qty = min i.quantity r.quantity
      h ← set_quantity incoming (sub16 i.quantity trade_qty) s.heap
      r ← h resting
      h ← set_quantity resting (sub16 r.quantity trade_qty) h
      i ← h incoming
      r ← h resting
      let count = length s.reports
      drop_filled best_price resting (record s {
        heap = h;
        matched_any = true;
        reports =
            s.reports
            ++ report_on (clock count) event_timestamp i best_price trade_qty (status_of i.quantity)
              ∷ report_on (clock (count + 1)) event_timestamp r best_price trade_qty
                  (status_of r.quantity)
              ∷ [];
      })

    -- The body of the loop at its best level; `false` is `break`.
    unfoldable pub meet : ℤ → Ptr → Order → Matching → Option (Bool × Matching)
    meet (negsuc _) incoming i s = some (false, s)
    meet (pos best_price) incoming i s =
        if crosses i.side best_price i.price
        then (do
          resting ← peek_order_known_valid best_price s.opp_book
          elim resting [
            | none ↦ some (true, s)
            | some r ↦ do s ← trade incoming best_price r s; some (true, s)
          ])
        else some (false, s)

    -- One test of the loop's condition, and its body.
    unfoldable pub match_round : Ptr → Matching → Option (Bool × Matching)
    match_round incoming s = do
      i ← s.heap incoming
      if i.quantity == 0 then some (false, s) else meet (best_level i.side s.opp_book) incoming i s

    -- The loop; `none` if the fuel runs out.
    unfoldable pub match_loop : ℕ → Ptr → Matching → Option Matching
    match_loop zero incoming s = none
    match_loop (suc fuel) incoming s = do
      (more, s) ← match_round incoming s
      elim more [ true ↦ match_loop fuel incoming s | false ↦ some s ]

    -- What follows the loop: the rest of the order enters its own book, or the order is freed.
    unfoldable pub settle :
        Ptr → ℕ → Side → Matching → Engine → Option (Engine × List ExecutionReport)
    settle incoming idx side s e = do
      i ← s.heap incoming
      if ltb 0 i.quantity
          then (do
            own ← get_elem? (books_of side e) idx
            (b, h) ← add_order_known_valid i.price (some incoming) own s.heap
            i ← h incoming
            let added =
                report_on (clock (length s.reports)) event_timestamp i i.price i.quantity new
            some (
              with_book side idx b h e,
              if s.matched_any then s.reports else s.reports ++ added ∷ [],
            ))
          else (do h ← deallocate incoming s.heap; some (record e { heap = h }, s.reports))

    -- Each round that goes on trades at least one unit, so the incoming quantity bounds the rounds.
    unfoldable pub process_order : Ptr → Engine → Option (Engine × List ExecutionReport)
    process_order incoming e = do
      i ← e.heap incoming
      let idx = instrument_code i.instrument
      opp ← get_elem? (books_of (opposite i.side) e) idx
      s ←
          match_loop (suc i.quantity) incoming
            (record { opp_book = opp; heap = e.heap; matched_any = false; reports = [] })
      settle incoming idx i.side s (with_book (opposite i.side) idx s.opp_book s.heap e)
