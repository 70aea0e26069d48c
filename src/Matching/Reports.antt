-- ===== src/Matching/Reports.antt =====
-- The reports that a list of trades gives rise to.
use flower_exchange.Base.{ℕ, ◌+◌, List, [], ◌∷◌, Option, none}
use flower_exchange.Types.{Text, Order, ExecutionReport, InstrumentType}
use flower_exchange.Matching.{report_on, status_of, opposite}
use flower_exchange.Matching.Reference.{Trade}
use flower_exchange.Matching.Market.{resting_order}

module _ (clock : ℕ → Text) (event_timestamp : Option Text) (taker : Order)
    (instrument : InstrumentType) where
  -- The incoming order's report comes first; both name the resting order's price.
  abbrev pub taker_report : ℕ → Trade → ExecutionReport
  taker_report k t =
      report_on (clock k) event_timestamp taker t.maker.price t.quantity (status_of t.taker_left)

  abbrev pub maker_report : ℕ → Trade → ExecutionReport
  maker_report k t =
      report_on (clock k) event_timestamp
        (resting_order (opposite taker.side) instrument t.maker none) t.maker.price t.quantity
        (status_of t.maker_left)

  -- From the k-th report of the call on.
  abbrev pub reports_of : ℕ → List Trade → List ExecutionReport
  reports_of k [] = []
  reports_of k (t ∷ trades) = taker_report k t ∷ maker_report (k + 1) t ∷ reports_of (k + 2) trades
