-- ===== src/Matching/Idle.antt =====
-- An exchange whose books are empty.
use flower_exchange.Base.{◌<◌, ◌≡◌, refl, arith, [], some, get_elem?, replicate}
use flower_exchange.Types.{
  Side, buy, sell, InstrumentType, rose, lavender, lotus, tulip, orchid, count, instrument_code,
}
use flower_exchange.OrderBook.Heap.{Heap}
use flower_exchange.OrderBook.Interface.{OrderBook, OrderBookLaws}
use flower_exchange.Matching.{Engine, make_engine, books_of}
use flower_exchange.Matching.Exchange.{World, HasMarkets}

abbrev pub no_orders : World
no_orders s k = []

module _ {strategy : OrderBook} (laws : OrderBookLaws strategy) where
  open strategy use {Book}
  open laws use {Rep}

  -- The same empty book for each side of each instrument.
  abbrev pub idle : Heap → Book → Engine strategy
  idle h b = make_engine strategy h (replicate 5 b) (replicate 5 b)

  idle-get :
      (h : Heap) (b : Book) (s : Side) (k : InstrumentType)
      → instrument_code k < 5
      → get_elem? (books_of strategy s (idle h b)) (instrument_code k) ≡ some b
  idle-get h b buy rose l = refl
  idle-get h b buy lavender l = refl
  idle-get h b buy lotus l = refl
  idle-get h b buy tulip l = refl
  idle-get h b buy orchid l = refl
  idle-get h b buy count l = absurd (omega (arith, l))
  idle-get h b sell rose l = refl
  idle-get h b sell lavender l = refl
  idle-get h b sell lotus l = refl
  idle-get h b sell tulip l = refl
  idle-get h b sell orchid l = refl
  idle-get h b sell count l = absurd (omega (arith, l))

  pub idle-HasMarkets :
      (h : Heap) (b : Book) → Rep b h (λ t. []) → HasMarkets laws (idle h b) no_orders
  idle-HasMarkets h b rep = record {
    market = λ s k l.
        (b, idle-get h b s k l, record { rep = rep; sorted = tt; nodup = tt; resting = tt });
    absent = λ s. refl;
  }
