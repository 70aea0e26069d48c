-- ===== src/Tests/Exchange.antt =====
-- An exchange of five instruments on bitmask books of 130 ticks: one offer of 10 at tick 5 rests,
-- and a bid of 25 at tick 70 comes in.
use flower_exchange.Base.{
  ℕ, ◌≡◌, ◌<◌, ◌≢◌, refl, sym, subst, arith, [], ◌∷◌, none, some, true, false, inl, inr, Bool-cases,
  ◌==◌, if◌then◌else◌, get_elem?,
}
use flower_exchange.Types.{
  Text, Ptr, Order, Side, buy, sell, InstrumentType, rose, lavender, lotus, tulip, orchid, count,
  instrument_code,
}
use flower_exchange.OrderBook.Heap.{set_next, write}
use flower_exchange.OrderBook.Levels.{has}
use flower_exchange.OrderBook.Bitmask.{BitmaskOrderBook, init, add_order_known_valid, open_level}
use flower_exchange.OrderBook.Bitmask.Rep.{IsBook, init-IsBook}
use flower_exchange.OrderBook.Bitmask.Strategy.{bitmask_strategy, bitmask_laws}
use flower_exchange.Matching.{Engine, Matching, books_of, trade}
use flower_exchange.Matching.Reference.{Entry, insert, orders_of}
use flower_exchange.Matching.Priority.{levels_of-insert}
use flower_exchange.Matching.Market.{IsMarket}
use flower_exchange.Matching.Round.{IsTraded, trade-IsTraded}
use flower_exchange.Matching.Loop.{IsReady, Loops, match_loop-Loops}
use flower_exchange.Matching.Exchange.{World}
use flower_exchange.Matching.Process.{IsArrival}
use flower_exchange.Matching.Arrival.{Serves, process_order-Serves}
use flower_exchange.Tests.Books.{
  offer, bid, pool, one_level, one_level-IsBook, one_level-offer, one_level-bid,
}

abbrev clock : ℕ → Text
clock k = b't' ∷ k ∷ []

abbrev resting : Entry
resting = record { price = 5; order = 1; quantity = 10; oid = b'a' ∷ []; coid = b'c' ∷ [] }

abbrev before : Matching bitmask_strategy
before = record { opp_book = one_level.0; heap = one_level.1; matched_any = false; reports = [] }

offers-IsMarket : IsMarket (bitmask_laws 130) sell rose one_level.0 one_level.1 (resting ∷ [])
unfolding insert bitmask_laws
offers-IsMarket = record {
  rep =
      subst (IsBook 130 one_level.0 one_level.1) (sym (levels_of-insert sell resting [] tt))
        one_level-IsBook;
  sorted = (tt, tt);
  nodup = (refl, tt);
  resting = (
    record { next = none; live = one_level-offer; positive = omega arith; fits_word = omega arith },
    tt,
  );
}

trade-IsTraded_example :
    (s : Matching bitmask_strategy) × (trade bitmask_strategy clock none 2 5 1 before ≡ some s)
    × IsTraded (bitmask_laws 130) clock none 2 bid rose resting [] before s
trade-IsTraded_example =
    trade-IsTraded (bitmask_laws 130) clock none 2 bid rose resting [] before one_level-bid
      (omega arith) (omega arith) offers-IsMarket refl

bid-IsReady : IsReady (bitmask_laws 130) clock none 2 rose 26 bid (resting ∷ []) before
bid-IsReady = record {
  live = one_level-bid;
  enough = omega arith;
  fits_word = omega arith;
  market = offers-IsMarket;
  apart = refl;
}

match_loop-Loops_example : Loops (bitmask_laws 130) clock none 2 rose 26 bid (resting ∷ []) before
match_loop-Loops_example =
    match_loop-Loops (bitmask_laws 130) clock none 2 rose 26 bid (resting ∷ []) before bid-IsReady

abbrev exchange : Engine bitmask_strategy
exchange = record {
  buy_books = init 130 ∷ init 130 ∷ init 130 ∷ init 130 ∷ init 130 ∷ [];
  sell_books = one_level.0 ∷ init 130 ∷ init 130 ∷ init 130 ∷ init 130 ∷ [];
  heap = one_level.1;
}

abbrev markets : World
markets sell rose = resting ∷ []
markets _ _ = []

idle-IsMarket :
    (s : Side) (k : InstrumentType) → IsMarket (bitmask_laws 130) s k (init 130) one_level.1 []
unfolding bitmask_laws
idle-IsMarket s k = record {
  rep = init-IsBook 130 one_level.1;
  sorted = tt;
  nodup = tt;
  resting = tt;
}

exchange-IsMarket :
    (s : Side) (k : InstrumentType)
    → instrument_code k < 5
    → (b : BitmaskOrderBook) × (get_elem? (books_of bitmask_strategy s exchange) (instrument_code k)
        ≡ some b)
      × IsMarket (bitmask_laws 130) s k b one_level.1 (markets s k)
exchange-IsMarket buy rose l = (init 130, refl, idle-IsMarket buy rose)
exchange-IsMarket buy lavender l = (init 130, refl, idle-IsMarket buy lavender)
exchange-IsMarket buy lotus l = (init 130, refl, idle-IsMarket buy lotus)
exchange-IsMarket buy tulip l = (init 130, refl, idle-IsMarket buy tulip)
exchange-IsMarket buy orchid l = (init 130, refl, idle-IsMarket buy orchid)
exchange-IsMarket buy count l = absurd (omega (arith, l))
exchange-IsMarket sell rose l = (one_level.0, refl, offers-IsMarket)
exchange-IsMarket sell lavender l = (init 130, refl, idle-IsMarket sell lavender)
exchange-IsMarket sell lotus l = (init 130, refl, idle-IsMarket sell lotus)
exchange-IsMarket sell tulip l = (init 130, refl, idle-IsMarket sell tulip)
exchange-IsMarket sell orchid l = (init 130, refl, idle-IsMarket sell orchid)
exchange-IsMarket sell count l = absurd (omega (arith, l))

one_level-pool : (p : Ptr) → one_level.1 p ≡ (if p == 1 then some offer else pool p)
unfolding add_order_known_valid init set_next open_level write
one_level-pool p = refl

exchange-owned :
    (p : Ptr) (o : Order)
    → p ≢ 2
    → one_level.1 p ≡ some o
    → has p (orders_of (markets o.side o.instrument)) ≡ true
exchange-owned p o other live = elim (Bool-cases (p == 1)) [
  | inl e ↦
      let it : some offer ≡ some o = ground (arith, one_level-pool p) in
      let same : offer ≡ o = ground arith in
      subst (λ q. has p (orders_of (markets q.side q.instrument)) ≡ true) same (ground arith)
  | inr e ↦ absurd (ground (arith, one_level-pool p))
]

exchange-absent : (s : Side) → markets s count ≡ []
exchange-absent buy = refl
exchange-absent sell = refl

bid-new : (s : Side) (k : InstrumentType) → has 2 (orders_of (markets s k)) ≡ false
bid-new buy k = refl
bid-new sell rose = refl
bid-new sell lavender = refl
bid-new sell lotus = refl
bid-new sell tulip = refl
bid-new sell orchid = refl
bid-new sell count = refl

bid-IsArrival : IsArrival (bitmask_laws 130) exchange markets 2 bid
unfolding bitmask_laws
bid-IsArrival = record {
  markets = record { market = exchange-IsMarket; absent = exchange-absent };
  owned = exchange-owned;
  uncrossed = λ k. tt;
  live = one_level-bid;
  fresh = bid-new;
  listed = omega arith;
  positive = omega arith;
  fits_word = omega arith;
  fits = omega arith;
}

process_order-Serves_example :
    Serves (bitmask_laws 130) clock none exchange markets 2 bid bid-IsArrival
process_order-Serves_example =
    process_order-Serves (bitmask_laws 130) clock none exchange markets 2 bid bid-IsArrival
