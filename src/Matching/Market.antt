-- ===== src/Matching/Market.antt =====
-- One side of one market: a book that stands for a list in price-time priority.
use flower_exchange.Base.{◌^◌, ◌<◌, ◌≡◌, ap, ◌∙◌, arith, true, List, [], ◌∷◌, Option, some}
use flower_exchange.Types.{Ptr, Side, InstrumentType, Order}
use flower_exchange.OrderBook.Heap.{Heap}
use flower_exchange.OrderBook.Levels.{has, NoDup, next_of}
use flower_exchange.OrderBook.Interface.{OrderBook, OrderBookLaws}
use flower_exchange.Matching.Reference.{Entry, IsSorted, levels_of, orders_of}
use flower_exchange.Matching.Priority.{has-orders_at}

-- The order that an entry stands for, up to its link.
abbrev pub resting_order : Side → InstrumentType → Entry → Option Ptr → Order
resting_order side instrument x next = record {
  oid = x.oid;
  coid = x.coid;
  instrument = instrument;
  side = side;
  price = x.price;
  quantity = x.quantity;
  next = next;
}

-- The entry's order is live, and its quantity is a positive `uint16_t`.
pub record IsResting (h : Heap) (side : Side) (instrument : InstrumentType) (x : Entry)
    : Type 0 where
  pub next : Option Ptr
  pub live : h x.order ≡ some (resting_order side instrument x next)
  pub positive : 0 < x.quantity
  pub fits_word : x.quantity < 2 ^ 16

abbrev pub AllResting : Heap → Side → InstrumentType → List Entry → Type 0
AllResting h side instrument [] = Unit {0}
AllResting h side instrument (x ∷ xs) =
    IsResting h side instrument x × AllResting h side instrument xs

pub AllResting-frame :
    (h h' : Heap) (side : Side) (instrument : InstrumentType) (xs : List Entry)
    → ((p : Ptr) → has p (orders_of xs) ≡ true → h' p ≡ h p)
    → AllResting h side instrument xs
    → AllResting h' side instrument xs
AllResting-frame h h' side instrument [] same a = tt
AllResting-frame h h' side instrument (x ∷ xs) same (r, a) = (
  record {
    next = r.next;
    live = same x.order (ground arith) ∙ r.live;
    positive = r.positive;
    fits_word = r.fits_word;
  },
  AllResting-frame h h' side instrument xs (λ p m. same p (ground arith)) a,
)

module _ {strategy : OrderBook} (laws : OrderBookLaws strategy) where
  open strategy use {Book}
  open laws use {Rep, Rep-frame}

  pub record IsMarket (side : Side) (instrument : InstrumentType) (b : Book) (h : Heap)
      (xs : List Entry) : Type 0 where
    pub rep : Rep b h (levels_of xs)
    pub sorted : IsSorted side xs
    pub nodup : NoDup (orders_of xs)
    pub resting : AllResting h side instrument xs

  -- Nothing changes for a market if its orders stay as they are.
  pub IsMarket-frame :
      (side : Side) (instrument : InstrumentType) (b : Book) (h h' : Heap) (xs : List Entry)
      → IsMarket side instrument b h xs
      → ((p : Ptr) → has p (orders_of xs) ≡ true → h' p ≡ h p)
      → IsMarket side instrument b h' xs
  IsMarket-frame side instrument b h h' xs m same = record {
    rep =
        Rep-frame b h h' (levels_of xs) m.rep
          (λ p t i. ap next_of (same p (has-orders_at p t xs i)));
    sorted = m.sorted;
    nodup = m.nodup;
    resting = AllResting-frame h h' side instrument xs same m.resting;
  }
