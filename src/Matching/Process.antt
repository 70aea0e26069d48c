-- ===== src/Matching/Process.antt =====
-- `process_order` implements the reference on the whole exchange.
use flower_exchange.Base.{
  ℕ, ◌^◌, ◌<◌, ◌≡◌, ◌≢◌, sym, ap, subst, ◌∙◌, arith, inl, inr, true, false, not, ◌&&◌, List, [],
  ◌∷◌, ◌++◌, Option, none, some, ltb, if◌then◌else◌, Bool-cases,
}
use flower_exchange.Types.{
  Text, Ptr, Side, buy, sell, InstrumentType, Order, instrument_code, new, ExecutionReport,
}
use flower_exchange.OrderBook.Heap.{Heap}
use flower_exchange.OrderBook.Levels.{has, unlinked, SameOrders}
use flower_exchange.OrderBook.Interface.{OrderBook, OrderBookLaws}
use flower_exchange.Matching.{Engine, opposite, report_on}
use flower_exchange.Matching.Reference.{Entry, Fill, fill, insert, better, orders_of, levels_of}
use flower_exchange.Matching.Priority.{
  levels_of-insert, insert-IsSorted, insert-NoDup, orders_of-IsOutside,
}
use flower_exchange.Matching.Market.{IsMarket, IsResting, AllResting, resting_order}
use flower_exchange.Matching.Reports.{reports_of}
use flower_exchange.Matching.Trades.{takes, some_trade}
use flower_exchange.Matching.Spread.{IsUncrossed}
use flower_exchange.Matching.Exchange.{World, set_market, HasMarkets}

-- The reference's answer to an order `i` at the address `incoming`.
abbrev pub matched : Order → World → Fill
matched i w = fill (takes i) i.quantity (w (opposite i.side) i.instrument)

abbrev pub entry_of : Ptr → Order → ℕ → Entry
entry_of incoming i q = record {
  price = i.price;
  order = incoming;
  quantity = q;
  oid = i.oid;
  coid = i.coid;
}

abbrev pub world_after : Ptr → Order → World → World
world_after incoming i w =
    let result = matched i w in
    let taken = set_market w (opposite i.side) i.instrument result.book in
    if ltb 0 result.left
    then set_market taken i.side i.instrument
        (insert i.side (entry_of incoming i result.left) (w i.side i.instrument))
    else taken

-- Two reports for each trade; a NEW report if there is none and the order rests.
abbrev pub reports_after : (ℕ → Text) → Option Text → Order → World → List ExecutionReport
reports_after clock event_timestamp i w =
    let result = matched i w in
    let trades = reports_of clock event_timestamp i i.instrument 0 result.trades in
    if ltb 0 result.left && not (some_trade result.trades)
    then trades ++ report_on (clock 0) event_timestamp i i.price result.left new ∷ []
    else trades

-- Links aside, an order is what it was.
pub relinked :
    (c : Option Order) (o : Order)
    → unlinked c ≡ some o
    → (n : Option Ptr) × (c ≡ some (record o { next = n }))
relinked none o e = absurd (ground arith)
relinked (some r) o e = (r.next, ground arith)

AllResting-relink :
    (h h' : Heap) (s : Side) (k : InstrumentType) (xs : List Entry)
    → SameOrders h h'
    → AllResting h s k xs
    → AllResting h' s k xs
AllResting-relink h h' s k [] same a = tt
AllResting-relink h h' s k (x ∷ xs) same (r, a) =
    let (n, live) =
      relinked (h' x.order) (resting_order s k x none) (same x.order ∙ ap unlinked r.live) in
    (
      record { next = n; live = live; positive = r.positive; fits_word = r.fits_word },
      AllResting-relink h h' s k xs same a,
    )

AllResting-insert :
    (h : Heap) (s : Side) (k : InstrumentType) (e : Entry) (xs : List Entry)
    → IsResting h s k e
    → AllResting h s k xs
    → AllResting h s k (insert s e xs)
unfolding insert
AllResting-insert h s k e [] r a = (r, tt)
AllResting-insert h s k e (x ∷ xs) r (first, a) = elim (Bool-cases (better s e.price x.price)) [
  | inl front ↦ rw front (r, (first, a))
  | inr behind ↦ rw behind (first, AllResting-insert h s k e xs r a)
]

module _ {strategy : OrderBook} (laws : OrderBookLaws strategy) where
  open strategy use {Book, add_order_known_valid}
  open laws use {Rep, Fits, Rep-add}

  -- The pool holds the resting orders and nothing else, and no market is crossed.
  pub record IsExchange (e : Engine strategy) (w : World) : Type 0 where
    pub markets : HasMarkets laws e w
    pub owned :
        (p : Ptr) (o : Order) → e.heap p ≡ some o → has p (orders_of (w o.side o.instrument)) ≡ true
    pub uncrossed : (k : InstrumentType) → IsUncrossed (w buy k) (w sell k)

  -- The same with one more live order, which is in no book yet.
  pub record IsArrival (e : Engine strategy) (w : World) (incoming : Ptr) (i : Order) : Type 0 where
    pub markets : HasMarkets laws e w
    pub owned :
        (p : Ptr) (o : Order)
        → p ≢ incoming
        → e.heap p ≡ some o
        → has p (orders_of (w o.side o.instrument)) ≡ true
    pub uncrossed : (k : InstrumentType) → IsUncrossed (w buy k) (w sell k)
    pub live : e.heap incoming ≡ some i
    pub fresh : (s : Side) (k : InstrumentType) → has incoming (orders_of (w s k)) ≡ false
    pub listed : instrument_code i.instrument < 5
    pub positive : 0 < i.quantity
    pub fits_word : i.quantity < 2 ^ 16
    pub fits : Fits i.price

  -- The rest of an order joins its own market.
  pub add-IsMarket :
      (s : Side) (k : InstrumentType) (b : Book) (h : Heap) (xs : List Entry) (e : Entry)
      (j : Order)
      → IsMarket laws s k b h xs
      → Fits e.price
      → has e.order (orders_of xs) ≡ false
      → h e.order ≡ some j
      → unlinked (some j) ≡ some (resting_order s k e none)
      → 0 < e.quantity
      → e.quantity < 2 ^ 16
      → (b' : Book) × (h' : Heap) × (add_order_known_valid e.price (some e.order) b h
          ≡ some (b', h'))
        × IsMarket laws s k b' h' (insert s e xs)
        × SameOrders h h'
        × ((p : Ptr) → p ≢ e.order → has p (orders_of xs) ≡ false → h' p ≡ h p)
  add-IsMarket s k b h xs e j m fits new_order live same_as positive fits_word =
      let (b', h', returns, rep, same, elsewhere) =
        Rep-add e.price e.order b h (levels_of xs) j m.rep fits
          (orders_of-IsOutside e.order xs new_order) live in
      let (n, live') =
        relinked (h' e.order) (resting_order s k e none)
          (same e.order ∙ ap unlinked live ∙ same_as) in
      (
        b',
        h',
        returns,
        record {
          rep = subst (Rep b' h') (sym (levels_of-insert s e xs m.sorted)) rep;
          sorted = insert-IsSorted s e xs m.sorted;
          nodup = insert-NoDup s e xs new_order m.nodup;
          resting =
              AllResting-insert h' s k e xs
                (record { next = n; live = live'; positive = positive; fits_word = fits_word })
                (AllResting-relink h h' s k xs same m.resting);
        },
        same,
        λ p ne out. elsewhere p ne (orders_of-IsOutside p xs out),
      )
