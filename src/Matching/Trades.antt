-- ===== src/Matching/Trades.antt =====
-- The reference, one trade at a time, with its reports.
use mathlib.Core.List.{append_assoc}
use flower_exchange.Base.{
  ℕ, ◌+◌, ◌-◌, ◌<◌, min, ◌≡◌, refl, ap, ◌∙◌, arith, inl, inr, Bool, true, false, List, [], ◌∷◌,
  ◌++◌, Option, ◌==◌, leb, if◌then◌else◌, Bool-cases, length, length-append,
}
use flower_exchange.Types.{Text, PriceTick, InstrumentType, Order, ExecutionReport}
use flower_exchange.Matching.Reference.{Entry, Trade, fill}
use flower_exchange.Matching.{report_on, crosses}
use flower_exchange.Matching.Reports.{taker_report, maker_report, reports_of}

-- The prices that an incoming order accepts.
abbrev pub takes : Order → PriceTick → Bool
takes i t = crosses i.side t i.price

abbrev pub some_trade : List Trade → Bool
some_trade [] = false
some_trade (t ∷ ts) = true

-- The reports name the taker's identity, which its quantity is no part of.
pub reports_of-quantity :
    (clock : ℕ → Text) (event_timestamp : Option Text) (i : Order) (instrument : InstrumentType)
    (q k : ℕ) (trades : List Trade)
    → reports_of clock event_timestamp (record i { quantity = q }) instrument k trades
      ≡ reports_of clock event_timestamp i instrument k trades
unfolding report_on
reports_of-quantity clock ts i instrument q k [] = refl
reports_of-quantity clock ts i instrument q k (t ∷ trades) =
    ap
      (λ l.
        taker_report clock ts i instrument k t ∷ maker_report clock ts i instrument (k + 1) t ∷ l)
      (reports_of-quantity clock ts i instrument q (k + 2) trades)

pub reports-step :
    (before between after : List ExecutionReport) (a b : ExecutionReport)
    (rest : ℕ → List ExecutionReport)
    → between ≡ before ++ a ∷ b ∷ []
    → after ≡ between ++ rest (length between)
    → after ≡ before ++ a ∷ b ∷ rest (length before + 2)
reports-step before between after a b rest e f =
    let count : length between ≡ length before + 2 =
      omega (arith, ap length e, length-append before (a ∷ b ∷ [])) in
    f
    ∙ ap (λ k. between ++ rest k) count
    ∙ ap (λ l. l ++ rest (length before + 2)) e
    ∙ append_assoc before (a ∷ b ∷ []) (rest (length before + 2))

abbrev pub rest_after : Order → Entry → List Entry → List Entry
rest_after i x xs =
    if leb x.quantity i.quantity then xs else record x { quantity = x.quantity - i.quantity } ∷ xs

abbrev pub trade_of : Order → Entry → Trade
trade_of i x = record {
  maker = x;
  quantity = min i.quantity x.quantity;
  taker_left = i.quantity - x.quantity;
  maker_left = x.quantity - i.quantity;
}

-- The reference, one trade at a time.
pub fill-step :
    (i : Order) (x : Entry) (xs : List Entry)
    → 0 < i.quantity
    → takes i x.price ≡ true
    → let rest = fill (takes i) (i.quantity - x.quantity) (rest_after i x xs) in
      fill (takes i) i.quantity (x ∷ xs)
      ≡ record { left = rest.left; trades = trade_of i x ∷ rest.trades; book = rest.book }
unfolding fill
fill-step i x xs positive good = elim (Bool-cases (leb x.quantity i.quantity)) [
  | inl full ↦
      let some_left : (i.quantity == 0) ≡ false = ground arith in
      let whole : x.quantity ≡ min i.quantity x.quantity = ground arith in
      let none_left : 0 ≡ x.quantity - i.quantity = ground arith in
      rw (some_left, good, full, ← whole, ← none_left)
  | inr part ↦
      let some_left : (i.quantity == 0) ≡ false = ground arith in
      let whole : min i.quantity x.quantity ≡ i.quantity = ground arith in
      let none_left : i.quantity - x.quantity ≡ 0 = ground arith in
      rw (some_left, good, part, none_left, whole)
]
