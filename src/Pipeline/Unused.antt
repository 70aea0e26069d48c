-- ===== src/Pipeline/Unused.antt =====
-- An address that is in no market, for the turn that comes next.
use flower_exchange.Base.{
  ℕ, suc, ◌+◌, ◌≤◌, ◌==◌, ◌≡◌, arith, inl, inr, true, none, List, [], ◌∷◌, Bool-cases, Option-cases,
}
use flower_exchange.Types.{
  Ptr, Side, buy, sell, InstrumentType, rose, lavender, lotus, tulip, orchid, count,
  order_book_tick_capacity,
}
use flower_exchange.OrderBook.Levels.{has}
use flower_exchange.OrderBook.Bitmask.Strategy.{bitmask_strategy, bitmask_laws}
use flower_exchange.Matching.{Engine}
use flower_exchange.Matching.Reference.{orders_of}
use flower_exchange.Matching.Exchange.{World}
use flower_exchange.Matching.Process.{IsExchange}

-- No address of the list is above.
top : List Ptr → ℕ
top [] = 0
top (p ∷ ps) = p + top ps

has-top : (p : Ptr) (ps : List Ptr) → has p ps ≡ true → p ≤ top ps
unfolding top
has-top p [] at = absurd (ground arith)
has-top p (q ∷ ps) at = elim (Bool-cases (p == q)) [
  | inl e ↦ let same : p ≡ q = ground arith in omega (arith, same)
  | inr e ↦ let rest : has p ps ≡ true = ground arith in omega (arith, has-top p ps rest)
]

-- The same for all markets of a side.
tops : World → Side → ℕ
tops w s =
    top (orders_of (w s rose))
    + top (orders_of (w s lavender))
    + top (orders_of (w s lotus))
    + top (orders_of (w s tulip))
    + top (orders_of (w s orchid))
    + top (orders_of (w s count))

has-tops :
    (w : World) (s : Side) (k : InstrumentType) (p : Ptr)
    → has p (orders_of (w s k)) ≡ true
    → p ≤ tops w s
unfolding tops
has-tops w s rose p at = omega (arith, has-top p (orders_of (w s rose)) at)
has-tops w s lavender p at = omega (arith, has-top p (orders_of (w s lavender)) at)
has-tops w s lotus p at = omega (arith, has-top p (orders_of (w s lotus)) at)
has-tops w s tulip p at = omega (arith, has-top p (orders_of (w s tulip)) at)
has-tops w s orchid p at = omega (arith, has-top p (orders_of (w s orchid)) at)
has-tops w s count p at = omega (arith, has-top p (orders_of (w s count)) at)

has-sides :
    (w : World) (s : Side) (k : InstrumentType) (p : Ptr)
    → has p (orders_of (w s k)) ≡ true
    → p ≤ tops w buy + tops w sell
has-sides w buy k p at = omega (arith, has-tops w buy k p at)
has-sides w sell k p at = omega (arith, has-tops w sell k p at)

-- The pool always has an address that holds no order.
pub unused :
    (e : Engine bitmask_strategy) (w : World)
    → IsExchange (bitmask_laws order_book_tick_capacity) e w
    → (p : Ptr) × (e.heap p ≡ none)
unused e w x =
    let p : Ptr = suc (tops w buy + tops w sell) in
    elim (Option-cases (e.heap p)) [
      | inl empty ↦ (p, empty)
      | inr (o, live) ↦ absurd (omega (arith, has-sides w o.side o.instrument p (x.owned p o live)))
    ]
