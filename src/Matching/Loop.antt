-- ===== src/Matching/Loop.antt =====
-- The loop of `process_order` does what the reference does, with no fault and within its fuel.
use mathlib.Core.List.{append-nil}
use flower_exchange.Base.{
  ℕ, zero, suc, ◌-◌, ◌^◌, ◌<◌, ◌≡◌, ◌≢◌, refl, sym, ap, subst, ◌∙◌, arith, inl, inr, Bool, true,
  false, List, [], ◌∷◌, ◌++◌, Option, none, some, ◌==◌, ◌||◌, leb, Bool-cases, length, ℤ, pos,
  negsuc,
}
use flower_exchange.Types.{Text, Ptr, PriceTick, Side, buy, sell, InstrumentType, Order}
use flower_exchange.OrderBook.Heap.{Heap}
use flower_exchange.OrderBook.Levels.{has, NoDup, has_order, head_of}
use flower_exchange.OrderBook.Interface.{OrderBook, OrderBookLaws}
use flower_exchange.Matching.Reference.{Entry, Fill, fill, levels_of, orders_of}
use flower_exchange.Matching.Priority.{IsBest, best-nil, best-cons, level-front}
use flower_exchange.Matching.Market.{IsMarket}
use flower_exchange.Matching.{Matching, trade, best_level, meet, match_round, match_loop, opposite}
use flower_exchange.Matching.Reports.{reports_of}
use flower_exchange.Matching.Round.{IsTraded, trade-IsTraded}
use flower_exchange.Matching.Trades.{
  takes, some_trade, reports_of-quantity, reports-step, rest_after, trade_of, fill-step,
}

module _ {strategy : OrderBook} (laws : OrderBookLaws strategy) (clock : ℕ → Text)
    (event_timestamp : Option Text) (incoming : Ptr) (instrument : InstrumentType) where
  open strategy use {Book, peek_order_known_valid}
  open laws use {Rep, Rep-Fits, peek-head_of, find_first-IsLowest, find_last-IsHighest}

  -- `s'` is `s` after the incoming order `i` met the entries `xs` as the reference has it.
  pub record IsMatched (i : Order) (xs : List Entry) (s s' : Matching strategy) (result : Fill)
      : Type 0 where
    pub market : IsMarket laws (opposite i.side) instrument s'.opp_book s'.heap result.book
    pub taker : s'.heap incoming ≡ some (record i { quantity = result.left })
    pub matched : s'.matched_any ≡ (s.matched_any || some_trade result.trades)
    pub reports :
        s'.reports
        ≡ s.reports
          ++ reports_of clock event_timestamp i instrument (length s.reports) result.trades
    pub elsewhere : (p : Ptr) → p ≢ incoming → has p (orders_of xs) ≡ false → s'.heap p ≡ s.heap p
    pub freed :
        (p : Ptr)
        → has p (orders_of xs) ≡ true
        → has p (orders_of result.book) ≡ false
        → s'.heap p ≡ none

  best_level-IsBest :
      (side : Side) (b : Book) (h : Heap) (xs : List Entry)
      → Rep b h (levels_of xs)
      → IsBest (opposite side) (levels_of xs) (best_level strategy side b)
  best_level-IsBest buy b h xs rep = find_first-IsLowest b h (levels_of xs) rep
  best_level-IsBest sell b h xs rep = find_last-IsHighest b h (levels_of xs) rep

  stopped-IsMatched :
      (i : Order) (xs : List Entry) (s : Matching strategy)
      → s.heap incoming ≡ some i
      → IsMarket laws (opposite i.side) instrument s.opp_book s.heap xs
      → IsMatched i xs s s (record { left = i.quantity; trades = []; book = xs })
  stopped-IsMatched i xs s live m = record {
    market = m;
    taker = live;
    matched = ground arith;
    reports = sym (append-nil s.reports);
    elsewhere = λ p a b. refl;
    freed = λ p a b. absurd (ground arith);
  }

  -- One more trade before what the rest of the loop does.
  step-IsMatched :
      (i : Order) (x : Entry) (xs : List Entry) (s s1 s2 : Matching strategy) (rest : Fill)
      → NoDup (orders_of (x ∷ xs))
      → has incoming (orders_of (x ∷ xs)) ≡ false
      → IsTraded laws clock event_timestamp incoming i instrument x xs s s1
      → IsMatched (record i { quantity = i.quantity - x.quantity }) (rest_after i x xs) s1 s2 rest
      → IsMatched i
          (x ∷ xs)
          s
          s2
          (record { left = rest.left; trades = trade_of i x ∷ rest.trades; book = rest.book })
  step-IsMatched i x xs s s1 s2 rest nodup apart t m = record {
    market = m.market;
    taker = m.taker;
    matched = ground (arith, m.matched, t.matched);
    reports =
        reports-step s.reports s1.reports s2.reports _ _
          (λ k. reports_of clock event_timestamp i instrument k rest.trades) t.reports
          (m.reports
            ∙ ap (◌++◌ s1.reports) (
                reports_of-quantity clock event_timestamp i instrument (i.quantity - x.quantity)
                  (length s1.reports) rest.trades));
    elsewhere = λ p a b. m.elsewhere p a (has-rest p false b) ∙ t.elsewhere p a (ground arith);
    freed = λ p a b. elim (Bool-cases (has p (orders_of (rest_after i x xs)))) [
      | inl kept ↦ m.freed p kept b
      | inr gone ↦
          let (at, full) = gone-front p a gone in
          m.elsewhere p (ground (arith, apart)) gone ∙ ap s1.heap at ∙ t.freed full
    ];
  }
    where
      has-rest :
          (p : Ptr) (b : Bool)
          → has p (orders_of (x ∷ xs)) ≡ false
          → has p (orders_of (rest_after i x xs)) ≡ false
      has-rest p b e = ground arith

      gone-front :
          (p : Ptr)
          → has p (orders_of (x ∷ xs)) ≡ true
          → has p (orders_of (rest_after i x xs)) ≡ false
          → (p ≡ x.order) × (leb x.quantity i.quantity ≡ true)
      gone-front p a b = ground arith

  -- The loop's result: it returns, and stands for the reference's result.
  abbrev pub Loops : ℕ → Order → List Entry → Matching strategy → Type 0
  Loops fuel i xs s =
      (s' : Matching strategy) × (match_loop strategy clock event_timestamp fuel incoming s
        ≡ some s')
      × IsMatched i xs s s' (fill (takes i) i.quantity xs)

  -- The incoming order is live and in no level, and the fuel exceeds its quantity.
  pub record IsReady (fuel : ℕ) (i : Order) (xs : List Entry) (s : Matching strategy) : Type 0 where
    pub live : s.heap incoming ≡ some i
    pub enough : i.quantity < fuel
    pub fits_word : i.quantity < 2 ^ 16
    pub market : IsMarket laws (opposite i.side) instrument s.opp_book s.heap xs
    pub apart : has incoming (orders_of xs) ≡ false

  -- A round that breaks off leaves the reference nothing to do.
  break-Loops :
      (fuel : ℕ) (i : Order) (xs : List Entry) (s : Matching strategy)
      → IsReady (suc fuel) i xs s
      → match_round strategy clock event_timestamp incoming s ≡ some (false, s)
      → fill (takes i) i.quantity xs ≡ record { left = i.quantity; trades = []; book = xs }
      → Loops (suc fuel) i xs s
  unfolding match_loop
  break-Loops fuel i xs s ready stops idle = (
    s,
    rw stops,
    subst (IsMatched i xs s s) (sym idle) (stopped-IsMatched i xs s ready.live ready.market),
  )

  round-stop :
      (i : Order) (s : Matching strategy)
      → s.heap incoming ≡ some i
      → (i.quantity == 0) ≡ true
      → match_round strategy clock event_timestamp incoming s ≡ some (false, s)
  unfolding match_round
  round-stop i s live zero_left = rw (live, zero_left)

  round-meet :
      (i : Order) (s : Matching strategy) (best : ℤ)
      → s.heap incoming ≡ some i
      → (i.quantity == 0) ≡ false
      → best_level strategy i.side s.opp_book ≡ best
      → match_round strategy clock event_timestamp incoming s
        ≡ meet strategy clock event_timestamp best incoming i s
  unfolding match_round
  round-meet i s best live left at = rw (live, left, at)

  meet-stop :
      (i : Order) (t : PriceTick) (s : Matching strategy)
      → takes i t ≡ false
      → meet strategy clock event_timestamp (pos t) incoming i s ≡ some (false, s)
  unfolding meet
  meet-stop i t s refused = rw refused

  meet-trade :
      (i : Order) (t : PriceTick) (p : Ptr) (s s1 : Matching strategy)
      → takes i t ≡ true
      → peek_order_known_valid t s.opp_book ≡ some (some p)
      → trade strategy clock event_timestamp incoming t p s ≡ some s1
      → meet strategy clock event_timestamp (pos t) incoming i s ≡ some (true, s1)
  unfolding meet
  meet-trade i t p s s1 good head trades = rw (good, head, trades)

  -- A round that trades, and the rounds behind it.
  trade-Loops :
      (fuel : ℕ) (i : Order) (x : Entry) (xs : List Entry) (s s1 : Matching strategy)
      → IsReady (suc fuel) i (x ∷ xs) s
      → 0 < i.quantity
      → takes i x.price ≡ true
      → match_round strategy clock event_timestamp incoming s ≡ some (true, s1)
      → IsTraded laws clock event_timestamp incoming i instrument x xs s s1
      → Loops fuel (record i { quantity = i.quantity - x.quantity }) (rest_after i x xs) s1
      → Loops (suc fuel) i (x ∷ xs) s
  unfolding match_loop
  trade-Loops fuel i x xs s s1 ready positive good round t (s2, returns, m) = (
    s2,
    rw round returns,
    subst (IsMatched i (x ∷ xs) s s2) (sym (fill-step i x xs positive good))
        (step-IsMatched i x xs s s1 s2 _ ready.market.nodup ready.apart t m),
  )

  traded-IsReady :
      (fuel : ℕ) (i : Order) (x : Entry) (xs : List Entry) (s s1 : Matching strategy)
      → IsReady (suc fuel) i (x ∷ xs) s
      → 0 < i.quantity
      → IsTraded laws clock event_timestamp incoming i instrument x xs s s1
      → IsReady fuel (record i { quantity = i.quantity - x.quantity }) (rest_after i x xs) s1
  traded-IsReady fuel i x xs s s1 ready positive t = record {
    live = t.taker;
    enough = omega (arith, ready.enough, ready.market.resting.0.positive);
    fits_word = omega (arith, ready.fits_word);
    market = t.market;
    apart = ground (arith, ready.apart);
  }

  front :
      (i : Order) (x : Entry) (xs : List Entry) (s : Matching strategy)
      → IsMarket laws (opposite i.side) instrument s.opp_book s.heap (x ∷ xs)
      → (best_level strategy i.side s.opp_book ≡ pos x.price)
        × (peek_order_known_valid x.price s.opp_book ≡ some (some x.order))
  front i x xs s m = (
    best-cons (opposite i.side) x xs (best_level strategy i.side s.opp_book) m.sorted
        (best_level-IsBest i.side s.opp_book s.heap (x ∷ xs) m.rep),
    peek-head_of x.price s.opp_book s.heap (levels_of (x ∷ xs)) m.rep (
          Rep-Fits s.opp_book s.heap (levels_of (x ∷ xs)) x.price m.rep
            (ap has_order (level-front x xs)))
        ∙ ap some (ap head_of (level-front x xs)),
  )

  filled-idle :
      (i : Order) (xs : List Entry)
      → (i.quantity == 0) ≡ true
      → fill (takes i) i.quantity xs ≡ record { left = i.quantity; trades = []; book = xs }
  unfolding fill
  filled-idle i [] done = refl
  filled-idle i (x ∷ xs) done = rw done

  refused-idle :
      (i : Order) (x : Entry) (xs : List Entry)
      → takes i x.price ≡ false
      → fill (takes i) i.quantity (x ∷ xs)
        ≡ record { left = i.quantity; trades = []; book = x ∷ xs }
  unfolding fill
  refused-idle i x xs refused = elim (Bool-cases (i.quantity == 0)) [
    | inl e ↦ rw e
    | inr e ↦ rw (e, refused)
  ]

  -- With more fuel than the incoming quantity, and the incoming order live and in no level: the
  -- loop returns, and its book, heap, flag and reports are those of the reference `fill`.
  pub match_loop-Loops :
      (fuel : ℕ) (i : Order) (xs : List Entry) (s : Matching strategy)
      → IsReady fuel i xs s
      → Loops fuel i xs s
  match_loop-Loops zero i xs s ready = absurd (omega (arith, ready.enough))
  match_loop-Loops (suc fuel) i [] s ready = elim (Bool-cases (i.quantity == 0)) [
    | inl done ↦
        break-Loops fuel i [] s ready (round-stop i s ready.live done) (filled-idle i [] done)
    | inr left ↦
        break-Loops fuel i [] s ready
          (round-meet i s (negsuc 0) ready.live left (
              best-nil (opposite i.side) (best_level strategy i.side s.opp_book)
                (best_level-IsBest i.side s.opp_book s.heap [] ready.market.rep))
            ∙ unfold meet in refl)
          (unfold fill in refl)
  ]
  match_loop-Loops (suc fuel) i (x ∷ xs) s ready =
      let (best, head) = front i x xs s ready.market in
      elim (Bool-cases (i.quantity == 0)) [
        | inl done ↦
            break-Loops fuel i (x ∷ xs) s ready (round-stop i s ready.live done)
              (filled-idle i (x ∷ xs) done)
        | inr left ↦ elim (Bool-cases (takes i x.price)) [
          | inl good ↦
              let positive : 0 < i.quantity = ground arith in
              let (s1, trades, t) =
                trade-IsTraded laws clock event_timestamp incoming i instrument x xs s ready.live
                  positive ready.fits_word ready.market ready.apart in
              trade-Loops fuel i x xs s s1 ready positive good
                (round-meet i s (pos x.price) ready.live left best
                  ∙ meet-trade i x.price x.order s s1 good head trades)
                t
                (match_loop-Loops fuel (record i { quantity = i.quantity - x.quantity })
                  (rest_after i x xs) s1 (traded-IsReady fuel i x xs s s1 ready positive t))
          | inr refused ↦
              break-Loops fuel i (x ∷ xs) s ready
                (round-meet i s (pos x.price) ready.live left best ∙ meet-stop i x.price s refused)
                (refused-idle i x xs refused)
        ]
      ]
