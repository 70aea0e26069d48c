-- ===== src/Matching/Arrival.antt =====
-- `process_order` implements the reference: the markets, the pool and the reports after a call.
use flower_exchange.Base.{
  ℕ, suc, ◌^◌, ◌≤◌, ◌<◌, ◌≡◌, ◌≢◌, refl, sym, ap, subst, ◌∙◌, arith, inl, inr, true, false, List,
  [], ◌∷◌, ◌++◌, Option, none, some, ◌==◌, ltb, if◌then◌else◌, Bool-cases, length, get_elem?,
  ==_self,
}
use flower_exchange.Types.{Text, Ptr, Side, buy, sell, InstrumentType, Order, instrument_code, new}
use flower_exchange.OrderBook.Heap.{Heap, write}
use flower_exchange.OrderBook.Heap.Laws.{write_self, write-ne}
use flower_exchange.OrderBook.Levels.{has, unlinked, SameOrders}
use flower_exchange.OrderBook.Interface.{OrderBook, OrderBookLaws}
use flower_exchange.Matching.{
  Engine, Matching, books_of, with_book, opposite, process_order, settle, match_loop, report_on,
}
use flower_exchange.Matching.Reference.{Entry, Trade, Fill, insert, orders_of}
use flower_exchange.Matching.Priority.{orders_of-insert}
use flower_exchange.Matching.Market.{IsMarket}
use flower_exchange.Matching.Trades.{takes, some_trade}
use flower_exchange.Matching.Loop.{IsMatched, match_loop-Loops}
use flower_exchange.Matching.Spread.{IsUncrossed, IsApart, fill-IsApart, insert-IsApart}
use flower_exchange.Matching.Exchange.{
  World, same_market, set_market, HasMarkets, HasMarkets-with_book, HasMarkets-heap, markets-apart,
  same_side_refl, resting_at, eq_of_same_market,
}
use flower_exchange.Matching.After.{
  fill-left, fill-has, same_market-opposite, same_market-sym, IsUncrossed-both, IsUncrossed-one,
}
use flower_exchange.Matching.Settle.{settle-free, settle-rest}
use flower_exchange.Matching.Process.{
  matched, entry_of, world_after, reports_after, relinked, IsExchange, IsArrival, add-IsMarket,
}

same_market_refl : (s : Side) (k : InstrumentType) → same_market s k s k ≡ true
same_market_refl s k = rw (same_side_refl s, ==_self (instrument_code k))

IsUncrossed-IsApart :
    (w : World) (s : Side) (k : InstrumentType)
    → IsUncrossed (w buy k) (w sell k)
    → IsApart s (w s k) (w (opposite s) k)
IsUncrossed-IsApart w buy k u = u
IsUncrossed-IsApart w sell k u = u

no_trade-nil : (trades : List Trade) → some_trade trades ≡ false → trades ≡ []
no_trade-nil [] e = refl
no_trade-nil (t ∷ trades) e = absurd (ground arith)

module _ {strategy : OrderBook} (laws : OrderBookLaws strategy) (clock : ℕ → Text)
    (event_timestamp : Option Text) (e : Engine strategy) (w : World) (incoming : Ptr) (i : Order)
    (a : IsArrival laws e w incoming i) where
  open strategy use {Book, add_order_known_valid}

  abbrev opp : Side
  opp = opposite i.side

  abbrev k : InstrumentType
  k = i.instrument

  abbrev result : Fill
  result = matched i w

  -- The reference once the opposite side is served, and the engine at that point.
  abbrev served : World
  served = set_market w opp k result.book

  distinct :
      (s : Side) (k' : InstrumentType) (p : Ptr) → has p (orders_of (w s k')) ≡ true → p ≢ incoming
  distinct s k' p at = ground (arith, a.fresh s k')

  served-fresh : (s : Side) (k' : InstrumentType) → has incoming (orders_of (served s k')) ≡ false
  served-fresh s k' = elim (Bool-cases (same_market opp k s k')) [
    | inl at ↦ rw at (fill-has (takes i) i.quantity (w opp k) incoming (a.fresh opp k))
    | inr at ↦ rw at (a.fresh s k')
  ]

  own-served : served i.side k ≡ w i.side k
  own-served = rw (same_market-opposite i.side k k)

  module _ (ob : Book) (s : Matching strategy)
      (m : IsMatched laws clock event_timestamp incoming k i
        (w opp k)
        (record { opp_book = ob; heap = e.heap; matched_any = false; reports = [] })
        s
        result) where
    abbrev e1 : Engine strategy
    e1 = with_book strategy opp (instrument_code k) s.opp_book s.heap e

    served-HasMarkets : HasMarkets laws e1 served
    served-HasMarkets =
        HasMarkets-with_book laws e w opp k s.opp_book s.heap result.book a.markets a.listed
          m.market
          (λ s' k' p l' ne at. m.elsewhere p (distinct s' k' p at) (
            markets-apart laws e w s' opp k' k p a.markets l' a.listed
              (same_market-sym opp s' k k' ne) at))

    -- Every live order but the incoming one is still in the market that its fields name.
    served-owned :
        (p : Ptr) (o : Order)
        → p ≢ incoming
        → s.heap p ≡ some o
        → has p (orders_of (served o.side o.instrument)) ≡ true
    served-owned p o ne live = elim (Bool-cases (has p (orders_of (w opp k)))) [
      | inl at ↦ elim (Bool-cases (has p (orders_of result.book))) [
        | inl kept ↦
            let (sides, kinds) =
              resting_at s.heap opp k result.book p o m.market.resting kept live in
            rw (sides, kinds, same_market_refl opp k) kept
        | inr gone ↦ let freed : s.heap p ≡ none = m.freed p at gone in absurd (ground arith)
      ]
      | inr out ↦
          let there = a.owned p o ne (sym (m.elsewhere p ne out) ∙ live) in
          elim (Bool-cases (same_market opp k o.side o.instrument)) [
            | inl at ↦
                let (sides, kinds) = eq_of_same_market opp o.side k o.instrument at in
                absurd (
                  ground (
                    arith,
                    subst (λ z. has p (orders_of (w z k)) ≡ true) (sym sides)
                        (subst (λ z. has p (orders_of (w o.side z)) ≡ true) (sym kinds) there),
                    out,
                  ))
            | inr at ↦ rw at there
          ]
    ]

    -- The order is filled.
    free-IsExchange :
        ltb 0 result.left ≡ false
        → IsExchange laws (record e1 { heap = write s.heap incoming none }) served
    free-IsExchange filled = record {
      markets =
          HasMarkets-heap laws e1 served (write s.heap incoming none) served-HasMarkets
            (λ s' k' p l at. write-ne s.heap incoming none p (ground (arith, served-fresh s' k')));
      owned = λ p o live. elim (Bool-cases (p == incoming)) [
        | inl here ↦
            let same : p ≡ incoming = ground arith in
            let gone : write s.heap incoming none p ≡ none =
              ap (write s.heap incoming none) same ∙ write_self s.heap incoming none in
            absurd (ground arith)
        | inr ne ↦
            let other : p ≢ incoming = ground arith in
            served-owned p o other (sym (write-ne s.heap incoming none p other) ∙ live)
      ];
      uncrossed = λ k'.
          IsUncrossed-one w i.side k k' result.book a.uncrossed
            (fill-IsApart i.side (takes i) i.quantity (w i.side k) (w opp k));
    }

    abbrev j : Order
    j = record i { quantity = result.left }

    abbrev rests : Entry
    rests = entry_of incoming i result.left

    abbrev w2 : World
    w2 = set_market served i.side k (insert i.side rests (w i.side k))

    joined-owned :
        (h : Heap)
        → SameOrders s.heap h
        → (n : Option Ptr) → h incoming ≡ some (record j { next = n })
        → (p : Ptr) (o : Order) → h p ≡ some o
        → has p (orders_of (w2 o.side o.instrument)) ≡ true
    joined-owned h same n live p o at = elim (Bool-cases (p == incoming)) [
      | inl here ↦
          let there : p ≡ incoming = ground arith in
          let it : some o ≡ some (record j { next = n }) = sym at ∙ ap h there ∙ live in
          let sides : o.side ≡ i.side = ground arith in
          let kinds : o.instrument ≡ k = ground arith in
          rw (sides, kinds, same_market_refl i.side k)
            (ground (arith, orders_of-insert i.side rests p (w i.side k)))
      | inr ne ↦
          let (n', before) =
            relinked (s.heap p) (record o { next = none }) (sym (same p) ∙ ap unlinked at) in
          let other : p ≢ incoming = ground arith in
          let there = served-owned p (record o { next = n' }) other before in
          elim (Bool-cases (same_market i.side k o.side o.instrument)) [
            | inl it ↦
                let (sides, kinds) = eq_of_same_market i.side o.side k o.instrument it in
                let inside : has p (orders_of (w i.side k)) ≡ true =
                  subst (λ z. has p (orders_of z) ≡ true) own-served
                    (subst (λ z. has p (orders_of (served z k)) ≡ true) (sym sides)
                      (subst (λ z. has p (orders_of (served o.side z)) ≡ true) (sym kinds)
                        there)) in
                rw it (orders_of-insert i.side rests p (w i.side k) ∙ rw (ne, inside))
            | inr it ↦ rw it there
          ]
    ]

    -- What is left joins the incoming order's own market.
    rest-joins :
        ltb 0 result.left ≡ true
        → (own : Book) × (b : Book) × (h : Heap) × (n : Option Ptr) × (get_elem?
              (books_of strategy i.side e1)
              (instrument_code k)
            ≡ some own)
          × (add_order_known_valid i.price (some incoming) own s.heap ≡ some (b, h))
          × (h incoming ≡ some (record j { next = n }))
          × IsExchange laws (with_book strategy i.side (instrument_code k) b h e1) w2
    rest-joins left =
        let positive : 0 < result.left = ground arith in
        let least : result.left ≤ i.quantity = fill-left (takes i) i.quantity (w opp k) in
        let fits : result.left < 2 ^ 16 = omega (arith, a.fits_word) in
        let (own, found, mo) = served-HasMarkets.market i.side k a.listed in
        let (b, h, returns, mb, same, elsewhere) =
          add-IsMarket laws i.side k own s.heap (w i.side k) rests j
            (subst (IsMarket laws i.side k own s.heap) own-served mo) a.fits (a.fresh i.side k)
            m.taker refl positive fits in
        let (n, live) =
          relinked (h incoming) (record j { next = none }) (same incoming ∙ ap unlinked m.taker) in
        (
          own,
          b,
          h,
          n,
          found,
          returns,
          live,
          record {
            markets =
                HasMarkets-with_book laws e1 served i.side k b h (insert i.side rests (w i.side k))
                  served-HasMarkets a.listed mb
                  (λ s' k' p l' ne at. elsewhere p (ground (arith, served-fresh s' k')) (
                    subst (λ z. has p (orders_of z) ≡ false) own-served
                      (markets-apart laws e1 served s' i.side k' k p served-HasMarkets l' a.listed
                        (same_market-sym i.side s' k k' ne) at)));
            owned = λ p o live'. joined-owned h same n live p o live';
            uncrossed = λ k'.
                IsUncrossed-both w i.side k k' (insert i.side rests (w i.side k)) result.book
                  a.uncrossed
                  (insert-IsApart i.side i.quantity rests (w i.side k) (w opp k)
                    (a.markets.market opp k a.listed).2.sorted positive
                    (IsUncrossed-IsApart w i.side k (a.uncrossed k)));
          },
        )

    reports-filled : ltb 0 result.left ≡ false → s.reports ≡ reports_after clock event_timestamp i w
    reports-filled filled = m.reports ∙ rw filled refl

    -- The order is announced as new exactly if it met nothing.
    reports-rest :
        (n : Option Ptr)
        → ltb 0 result.left ≡ true
        → (if s.matched_any
            then s.reports
            else s.reports
              ++ report_on
                  (clock (length s.reports))
                  event_timestamp
                  (record j { next = n })
                  i.price
                  result.left
                  new
                ∷ [])
          ≡ reports_after clock event_timestamp i w
    unfolding report_on
    reports-rest n left = elim (Bool-cases (some_trade result.trades)) [
      | inl t ↦ rw (m.matched, left, t) m.reports
      | inr t ↦ rw (m.matched, left, t, m.reports, no_trade-nil result.trades t)
    ]

  -- The engine returns, its reports are the reference's, and it stands for the reference's state.
  abbrev pub Serves : Type 0
  Serves =
      (e' : Engine strategy) × (process_order strategy clock event_timestamp incoming e
        ≡ some (e', reports_after clock event_timestamp i w))
      × IsExchange laws e' (world_after incoming i w)

  -- The call up to the end of the loop.
  process_order-loop :
      (ob : Book) (s : Matching strategy)
      → get_elem? (books_of strategy opp e) (instrument_code k) ≡ some ob
      → match_loop strategy clock event_timestamp
          (suc i.quantity)
          incoming
          (record { opp_book = ob; heap = e.heap; matched_any = false; reports = [] })
        ≡ some s
      → process_order strategy clock event_timestamp incoming e
        ≡ settle strategy clock event_timestamp incoming
            (instrument_code k)
            i.side
            s
            (with_book strategy opp (instrument_code k) s.opp_book s.heap e)
  unfolding process_order
  process_order-loop ob s found loops = rw (a.live, found, loops)

  -- For a live incoming order with a positive 16-bit quantity, that is in no book, on an engine
  -- that stands for `w`: the call meets no fault, its reports are `reports_after`, and the engine
  -- it gives stands for `world_after`: the pool holds the resting orders and nothing else, and no
  -- market is crossed.
  pub process_order-Serves : Serves
  process_order-Serves =
      let (ob, found, mo) = a.markets.market opp k a.listed in
      let (s, loops, m) =
        match_loop-Loops laws clock event_timestamp incoming k (suc i.quantity) i (w opp k)
          (record { opp_book = ob; heap = e.heap; matched_any = false; reports = [] })
          (record {
            live = a.live;
            enough = omega arith;
            fits_word = a.fits_word;
            market = mo;
            apart = a.fresh opp k;
          }) in
      let before = process_order-loop ob s found loops in
      elim (Bool-cases (ltb 0 result.left)) [
        | inl left ↦
            let (own, b, h, n, own_found, adds, live, after) = rest-joins ob s m left in
            let e' = with_book strategy i.side (instrument_code k) b h (e1 ob s m) in
            (
              e',
              before
                  ∙ settle-rest strategy clock event_timestamp incoming (instrument_code k) i.side s
                      (e1 ob s m) (j ob s m) m.taker own b h _ left own_found adds live
                  ∙ ap (λ r. some (e', r)) (reports-rest ob s m n left),
              rw left after,
            )
        | inr filled ↦
            let e' : Engine strategy = record (e1 ob s m) { heap = write s.heap incoming none } in
            (
              e',
              before
                  ∙ settle-free strategy clock event_timestamp incoming (instrument_code k) i.side s
                      (e1 ob s m) (j ob s m) m.taker filled
                  ∙ ap (λ r. some (e', r)) (reports-filled ob s m filled),
              rw filled (free-IsExchange ob s m filled),
            )
      ]
