-- ===== src/Tests/Turns.antt =====
-- Turns of the matcher over prices in hundredths: a row that fails validation, the end of the stream,
-- and a bid that rests.
use flower_exchange.Base.{ℕ, ◌≡◌, ◌<◌, ◌≤◌, refl, arith, true, false, [], ◌∷◌, pos}
use flower_exchange.Types.{Text, buy, rose, order_book_tick_capacity}
use flower_exchange.Types.Names.{parse_instrument}
use flower_exchange.Doubles.Ticks.{double_to_ticks}
use flower_exchange.Doubles.Range.{DoubleLaws, double_to_ticks-lt}
use flower_exchange.Validator.{validate_order}
use flower_exchange.Messages.{InboundOrderMsg}
use flower_exchange.OrderBook.Levels.{has}
use flower_exchange.Matching.Exchange.{World}
use flower_exchange.Matching.Reference.{orders_of, fill, insert}
use flower_exchange.Matching.Idle.{no_orders}
use flower_exchange.Processor.Consume.{Turn, new_processor}
use flower_exchange.Processor.Reference.{made}
use flower_exchange.Processor.Handles.{world_handled}
use flower_exchange.Processor.Run.{Handles, handle-Handles, AllFree, Consumes, consume-Consumes}
use flower_exchange.Processor.Start.{new_processor-IsExchange, Leaks, reset-Leaks}
use flower_exchange.Tests.Values.{hundredths}

pub hundredths-laws : DoubleLaws hundredths
hundredths-laws = record {
  not_above = λ x y fx fy e. ground arith;
  div_mono = λ x y e. ground arith;
  leb_trans = λ x y z e f. ground arith;
  total = λ x y fx fy e. ground arith;
  llround_mono = λ x y z e h. let l : x ≤ y = ground arith in omega (arith, l);
  llround_positive = λ x z h. refl;
  zero_finite = refl;
  zero_ticks = refl;
  largest_in_range = refl;
  largest_finite = refl;
  largest_small = refl;
  largest_ticks = refl;
}

double_to_ticks-lt_example : double_to_ticks hundredths 55 < order_book_tick_capacity
double_to_ticks-lt_example = double_to_ticks-lt hundredths hundredths-laws 55 refl refl refl

abbrev pub now : ℕ → Text
now k = b't' ∷ k ∷ []

abbrev pub row : InboundOrderMsg hundredths
row = record {
  end_of_stream = false;
  coid = b'x' ∷ [];
  instrument = b'R' ∷ b'o' ∷ b's' ∷ b'e' ∷ [];
  side = pos 1;
  quantity = pos 20;
  price = 55;
  seq = 1;
}

abbrev bid_turn : Turn hundredths now
bid_turn = record { message = row; timestamp = b't' ∷ []; address = 7 }

abbrev bad_turn : Turn hundredths now
bad_turn = record { message = record row { quantity = pos 7 }; timestamp = b't' ∷ []; address = 7 }

abbrev last_turn : Turn hundredths now
last_turn = record { message = record row { end_of_stream = true }; timestamp = []; address = 7 }

turns-AllFree :
    AllFree hundredths hundredths-laws now (bad_turn ∷ last_turn ∷ bid_turn ∷ []) 1 no_orders
unfolding validate_order parse_instrument
turns-AllFree = (λ s k. refl, (λ s k. refl, (λ s k. refl, tt)))

consume-Consumes_example :
    Consumes hundredths hundredths-laws now
      (bad_turn ∷ last_turn ∷ bid_turn ∷ [])
      new_processor
      no_orders
consume-Consumes_example =
    consume-Consumes hundredths hundredths-laws now (bad_turn ∷ last_turn ∷ bid_turn ∷ [])
      new_processor no_orders new_processor-IsExchange turns-AllFree

abbrev rested : World
rested = world_handled hundredths now bid_turn 1 no_orders

rested-has : has 7 (orders_of (rested buy rose)) ≡ true
unfolding validate_order parse_instrument fill insert made
rested-has = refl

bid_handled : Handles hundredths hundredths-laws now bid_turn new_processor no_orders
bid_handled =
    handle-Handles hundredths hundredths-laws now bid_turn new_processor no_orders
      new_processor-IsExchange (λ s k. refl)

reset-Leaks_example : Leaks bid_handled.0 7
reset-Leaks_example = reset-Leaks bid_handled.0 rested buy rose 7 bid_handled.3 rested-has
