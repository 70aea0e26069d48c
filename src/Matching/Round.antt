-- ===== src/Matching/Round.antt =====
-- One trade with the front of the opposite side.
use flower_exchange.Base.{
  ℕ, ◌+◌, ◌-◌, ◌^◌, ◌<◌, min, ◌≡◌, ◌≢◌, refl, sym, ap, subst, ◌∙◌, arith, inl, inr, true, false,
  List, [], ◌∷◌, ◌++◌, Option, none, some, ◌==◌, leb, if◌then◌else◌, Bool-cases, length,
}
use flower_exchange.Types.{Text, Ptr, InstrumentType, Order}
use flower_exchange.OrderBook.Heap.{Heap, write}
use flower_exchange.OrderBook.Heap.Laws.{
  write_self, write-ne, set_quantity-some, requantify-next_of,
}
use flower_exchange.OrderBook.Levels.{has, next_of, unlinked}
use flower_exchange.OrderBook.Interface.{OrderBook, OrderBookLaws}
use flower_exchange.Matching.Reference.{Entry, Trade, levels_of, orders_of, orders_at}
use flower_exchange.Matching.Priority.{level-front, levels_of-tail, has-orders_at}
use flower_exchange.Matching.Market.{IsMarket, AllResting-frame, resting_order}
use flower_exchange.Matching.{Matching, trade, drop_filled, deallocate, sub16, report_on, opposite}
use flower_exchange.Matching.Reports.{taker_report, maker_report}

pub deallocate-some :
    (p : Ptr) (h : Heap) (o : Order) → h p ≡ some o → deallocate p h ≡ some (write h p none)
unfolding deallocate
deallocate-some p h o live = rw live

live_of_unlinked :
    (c d : Option Order) (o : Order)
    → unlinked c ≡ unlinked d
    → d ≡ some o
    → (r : Order) × (c ≡ some r)
live_of_unlinked none d o e f = absurd (ground arith)
live_of_unlinked (some r) d o e f = (r, refl)

module _ {strategy : OrderBook} (laws : OrderBookLaws strategy) (clock : ℕ → Text)
    (event_timestamp : Option Text) (incoming : Ptr) (i : Order) (instrument : InstrumentType)
    (x : Entry) (xs : List Entry) where
  open strategy use {Book}
  open laws use {Rep, Rep-frame, Rep-pop}

  -- What the trade leaves of the opposite side.
  abbrev pub rest_of : List Entry
  rest_of =
      if leb x.quantity i.quantity then xs else record x { quantity = x.quantity - i.quantity } ∷ xs

  abbrev pub made : Trade
  made = record {
    maker = x;
    quantity = min i.quantity x.quantity;
    taker_left = i.quantity - x.quantity;
    maker_left = x.quantity - i.quantity;
  }

  pub record IsTraded (s s' : Matching strategy) : Type 0 where
    pub market : IsMarket laws (opposite i.side) instrument s'.opp_book s'.heap rest_of
    pub taker : s'.heap incoming ≡ some (record i { quantity = i.quantity - x.quantity })
    pub matched : s'.matched_any ≡ true
    pub reports :
        s'.reports
        ≡ s.reports
          ++ taker_report clock event_timestamp i instrument (length s.reports) made
            ∷ maker_report clock event_timestamp i instrument (length s.reports + 1) made
            ∷ []
    pub elsewhere : (p : Ptr) → p ≢ incoming → p ≢ x.order → s'.heap p ≡ s.heap p
    pub freed : leb x.quantity i.quantity ≡ true → s'.heap x.order ≡ none

  module _ (s : Matching strategy) (live : s.heap incoming ≡ some i) (positive : 0 < i.quantity)
      (fits_word : i.quantity < 2 ^ 16)
      (m : IsMarket laws (opposite i.side) instrument s.opp_book s.heap (x ∷ xs))
      (apart : has incoming (orders_of (x ∷ xs)) ≡ false) where
    open m.resting.0 use {next}

    abbrev r : Order
    r = resting_order (opposite i.side) instrument x next

    abbrev taken : Heap
    taken = write s.heap incoming (some (record i { quantity = i.quantity - x.quantity }))

    abbrev dealt : Heap
    dealt = write taken x.order (some (record r { quantity = x.quantity - i.quantity }))

    distinct : x.order ≢ incoming
    distinct = ground (arith, apart)

    live_taken : taken x.order ≡ some r
    live_taken = write-ne s.heap incoming _ x.order distinct ∙ m.resting.0.live

    live_dealt : dealt x.order ≡ some (record r { quantity = x.quantity - i.quantity })
    live_dealt = write_self taken x.order _

    taker_dealt : dealt incoming ≡ some (record i { quantity = i.quantity - x.quantity })
    taker_dealt =
        write-ne taken x.order _ incoming (λ e. distinct (sym e)) ∙ write_self s.heap incoming _

    dealt-next_of : (q : Ptr) → next_of (dealt q) ≡ next_of (s.heap q)
    dealt-next_of q =
        requantify-next_of taken x.order r live_taken (x.quantity - i.quantity) q
        ∙ requantify-next_of s.heap incoming i live (i.quantity - x.quantity) q

    -- The state as the test of `drop_filled` finds it.
    abbrev traded : Matching strategy
    traded = record s {
      heap = dealt;
      matched_any = true;
      reports =
          s.reports
          ++ taker_report clock event_timestamp i instrument (length s.reports) made
            ∷ maker_report clock event_timestamp i instrument (length s.reports + 1) made
            ∷ [];
    }

    trade-traded :
        trade strategy clock event_timestamp incoming x.price x.order s
        ≡ drop_filled strategy clock event_timestamp x.price x.order traded
    unfolding trade report_on
    trade-traded =
        let taker_word : sub16 i.quantity (min i.quantity x.quantity) ≡ i.quantity - x.quantity =
          omega arith in
        let maker_word : sub16 x.quantity (min i.quantity x.quantity) ≡ x.quantity - i.quantity =
          omega (arith, m.resting.0.fits_word) in
        rw
          (
            live,
            m.resting.0.live,
            set_quantity-some s.heap incoming i live (sub16 i.quantity (min i.quantity x.quantity)),
            taker_word,
            live_taken,
            set_quantity-some taken x.order r live_taken
                (sub16 x.quantity (min i.quantity x.quantity)),
            maker_word,
            taker_dealt,
            live_dealt,
          )
          refl

    dealt-market_rep : Rep s.opp_book dealt (levels_of (x ∷ xs))
    dealt-market_rep =
        Rep-frame s.opp_book s.heap dealt (levels_of (x ∷ xs)) m.rep (λ p t e. dealt-next_of p)

    dealt-elsewhere : (p : Ptr) → p ≢ incoming → p ≢ x.order → dealt p ≡ s.heap p
    dealt-elsewhere p a b = write-ne taken x.order _ p b ∙ write-ne s.heap incoming _ p a

    others-elsewhere : (p : Ptr) → has p (orders_of xs) ≡ true → (p ≢ incoming) × (p ≢ x.order)
    others-elsewhere p e = (ground (arith, apart), ground (arith, m.nodup.0))

    -- The resting order keeps a part of its quantity and its place.
    partial-IsTraded :
        leb x.quantity i.quantity ≡ false
        → (s' : Matching strategy) × (drop_filled strategy clock event_timestamp x.price x.order
              traded
            ≡ some s')
          × IsTraded s s'
    unfolding drop_filled
    partial-IsTraded part =
        let more : (x.quantity - i.quantity == 0) ≡ false = ground arith in
        (
          traded,
          rw (live_dealt, more),
          record {
            market = rw part (record {
              rep = dealt-market_rep;
              sorted = m.sorted;
              nodup = m.nodup;
              resting = (
                record {
                  next = next;
                  live = live_dealt;
                  positive = ground arith;
                  fits_word = omega (arith, m.resting.0.fits_word);
                },
                AllResting-frame s.heap dealt (opposite i.side) instrument xs
                    (λ p e. dealt-elsewhere p (others-elsewhere p e).0 (others-elsewhere p e).1)
                    m.resting.1,
              );
            });
            taker = taker_dealt;
            matched = refl;
            reports = refl;
            elsewhere = dealt-elsewhere;
            freed = λ full. absurd (ground arith);
          },
        )

    -- The resting order is filled: it leaves the book, and its memory is given back.
    full-IsTraded :
        leb x.quantity i.quantity ≡ true
        → (s' : Matching strategy) × (drop_filled strategy clock event_timestamp x.price x.order
              traded
            ≡ some s')
          × IsTraded s s'
    unfolding drop_filled
    full-IsTraded full =
        let nothing : (x.quantity - i.quantity == 0) ≡ true = ground arith in
        let (b, h, returns, rep, same, elsewhere) =
          Rep-pop x.price x.order (orders_at x.price xs) s.opp_book dealt (levels_of (x ∷ xs))
            dealt-market_rep (level-front x xs) in
        let (o, live_popped) =
          live_of_unlinked (h x.order) (dealt x.order) _ (same x.order) live_dealt in
        let freed_heap : Heap = write h x.order none in
        let freed_elsewhere : (p : Ptr) → p ≢ x.order → freed_heap p ≡ dealt p =
          λ p ne. write-ne h x.order none p ne ∙ elsewhere p ne in
        let freed_others : (p : Ptr) → has p (orders_of xs) ≡ true → freed_heap p ≡ s.heap p =
          λ p e.
            freed_elsewhere p (others-elsewhere p e).1
            ∙ dealt-elsewhere p (others-elsewhere p e).0 (others-elsewhere p e).1 in
        (
          record traded { opp_book = b; heap = freed_heap },
          rw (live_dealt, nothing, returns, deallocate-some x.order h o live_popped),
          record {
            market = rw full (record {
              rep =
                  Rep-frame b h freed_heap (levels_of xs)
                    (subst (Rep b h) (levels_of-tail x xs) rep)
                    (λ p t e.
                      ap next_of (
                        write-ne h x.order none p (others-elsewhere p (has-orders_at p t xs e)).1));
              sorted = m.sorted.1;
              nodup = m.nodup.1;
              resting =
                  AllResting-frame s.heap freed_heap (opposite i.side) instrument xs freed_others
                    m.resting.1;
            });
            taker = freed_elsewhere incoming (λ e. distinct (sym e)) ∙ taker_dealt;
            matched = refl;
            reports = refl;
            elsewhere = λ p a c. freed_elsewhere p c ∙ dealt-elsewhere p a c;
            freed = λ _. write_self h x.order none;
          },
        )

    -- A trade between a live incoming order and the first order of the opposite side meets no fault;
    -- both quantities fall by the smaller one, the two reports follow those so far, and a filled
    -- resting order leaves its level and is freed.
    pub trade-IsTraded :
        (s' : Matching strategy) × (trade strategy clock event_timestamp incoming x.price x.order s
          ≡ some s')
        × IsTraded s s'
    trade-IsTraded = rw trade-traded (elim (Bool-cases (leb x.quantity i.quantity)) [
      | inl full ↦ full-IsTraded full
      | inr part ↦ partial-IsTraded part
    ])
