-- ===== src/Matching/Reference.antt =====
-- The reference: one side of a market as a list in price-time priority, best first. A new order
-- goes behind every order that is not worse; an incoming order takes from the front.
use flower_exchange.Base.{
  ℕ, ◌-◌, ◌≡◌, Bool, false, not, ◌||◌, List, [], ◌∷◌, ltb, leb, ◌==◌, if◌then◌else◌,
}
use flower_exchange.Types.{Text, Ptr, PriceTick, Side, buy, sell}
use flower_exchange.OrderBook.Levels.{Levels}

pub record Entry : Type 0 where
  pub price : PriceTick
  pub order : Ptr
  pub quantity : ℕ
  pub oid : Text
  pub coid : Text

-- A trade with a resting order, at its price, and what it leaves of both quantities.
pub record Trade : Type 0 where
  pub maker : Entry
  pub quantity : ℕ
  pub taker_left : ℕ
  pub maker_left : ℕ

-- `a` comes strictly before `b` on this side of the book: dearer bids, cheaper offers.
abbrev pub better : Side → PriceTick → PriceTick → Bool
better buy a b = ltb b a
better sell a b = ltb a b

-- No entry is better than one before it.
abbrev pub NoBetter : Side → PriceTick → List Entry → Type 0
NoBetter side t [] = Unit {0}
NoBetter side t (x ∷ xs) = (better side x.price t ≡ false) × NoBetter side t xs

abbrev pub IsSorted : Side → List Entry → Type 0
IsSorted side [] = Unit {0}
IsSorted side (x ∷ xs) = NoBetter side x.price xs × IsSorted side xs

-- The queue at one price, oldest first.
abbrev pub orders_at : PriceTick → List Entry → List Ptr
orders_at t [] = []
orders_at t (x ∷ xs) = if x.price == t then x.order ∷ orders_at t xs else orders_at t xs

abbrev pub levels_of : List Entry → Levels
levels_of xs t = orders_at t xs

abbrev pub orders_of : List Entry → List Ptr
orders_of [] = []
orders_of (x ∷ xs) = x.order ∷ orders_of xs

unfoldable pub insert : Side → Entry → List Entry → List Entry
insert side e [] = e ∷ []
insert side e (x ∷ xs) = if better side e.price x.price then e ∷ x ∷ xs else x ∷ insert side e xs

pub record Fill : Type 0 where
  pub left : ℕ
  pub trades : List Trade
  pub book : List Entry

-- An incoming quantity against the opposite side: full trades from the front, one partial trade at
-- most, up to the first entry that `takes` refuses.
unfoldable pub fill : (PriceTick → Bool) → ℕ → List Entry → Fill
fill takes q [] = record { left = q; trades = []; book = [] }
fill takes q (x ∷ xs) =
    let rest = fill takes (q - x.quantity) xs in
    if q == 0 || not (takes x.price)
    then record { left = q; trades = []; book = x ∷ xs }
    else if leb x.quantity q
    then record {
      left = rest.left;
      trades =
          record { maker = x; quantity = x.quantity; taker_left = q - x.quantity; maker_left = 0 }
          ∷ rest.trades;
      book = rest.book;
    }
    else record {
      left = 0;
      trades = record { maker = x; quantity = q; taker_left = 0; maker_left = x.quantity - q } ∷ [];
      book = record x { quantity = x.quantity - q } ∷ xs;
    }
