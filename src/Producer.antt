-- ===== src/Producer.antt =====
-- src/io/csv_order_producer.cpp: the rows of the input file as messages for the matcher. The file is
-- the lines that `std::getline` gives. A push waits for room, so the messages are the list of what is
-- pushed; an exception of a conversion leaves `produce` where it is thrown.
pub mod Laws
use flower_exchange.Base.{
  ℕ, ◌+◌, ◌-◌, ◌%◌, ◌^◌, Bool, true, false, Option, none, some, List, [], ◌∷◌, ◌++◌, map, ltb,
  if◌then◌else◌, ◌>>=◌, ℤ, pos,
}
use flower_exchange.Types.{Text, copy_chars}
use flower_exchange.Types.Int.{string_view_to_int}
use flower_exchange.Doubles.{Doubles}
use flower_exchange.Doubles.Parse.{string_view_to_double}
use flower_exchange.Messages.{InboundOrderMsg}
use flower_exchange.Csv.{CsvRow, size, field}

-- `copy_text(destination, destination_size, source)`: what the array holds, read up to its NUL.
unfoldable pub copy_view : ℕ → Text → Text
copy_view destination_size source = copy_chars (destination_size - 1) source

module _ (doubles : Doubles) where
  -- `InboundOrderMsg{}`.
  abbrev pub empty_inbound : InboundOrderMsg doubles
  empty_inbound = record {
    end_of_stream = false;
    coid = [];
    instrument = [];
    side = pos 0;
    quantity = pos 0;
    price = doubles.of_int (pos 0);
    seq = 0;
  }

  -- What `publish_end_of_stream` pushes.
  abbrev pub end_message : InboundOrderMsg doubles
  end_message = record empty_inbound { end_of_stream = true }

  -- The fields of a row in a message; `none` is an exception.
  unfoldable pub read_fields : CsvRow → Option (InboundOrderMsg doubles)
  unfolding copy_view
  read_fields row = do
    coid ← field row 0
    instrument ← field row 1
    side ← field row 2
    side ← string_view_to_int side
    quantity ← field row 3
    quantity ← string_view_to_int quantity
    price ← field row 4
    price ← string_view_to_double doubles price
    some (record empty_inbound {
      coid = copy_view 64 coid;
      instrument = copy_view 32 instrument;
      side = side;
      quantity = quantity;
      price = price;
    })

  -- The message that is pushed for a row.
  abbrev pub read_order : CsvRow → ℕ → Option (InboundOrderMsg doubles)
  read_order row sequence = do
    message ← read_fields row
    some (record message { end_of_stream = false; seq = sequence })

  pub record Producing : Type 0 where
    pub first_row : Bool
    pub sequence : ℕ
    pub produced : ℕ
    pub pushed : List (InboundOrderMsg doubles)

  -- The body of the loop.
  unfoldable pub produce_row : CsvRow → Producing → Option Producing
  unfolding read_fields
  produce_row row s =
      if s.first_row
      then some (record s { first_row = false })
      else if ltb (size row) 5
      then some s
      else (do
        message ← read_order row s.sequence
        some (record s {
          sequence = (s.sequence + 1) % 2 ^ 64;
          produced = (s.produced + 1) % 2 ^ 64;
          pushed = s.pushed ++ message ∷ [];
        }))

  -- The loop, and whether it ended without an exception.
  unfoldable pub produce_rows : List CsvRow → Producing → Producing × Bool
  unfolding produce_row
  produce_rows [] s = (s, true)
  produce_rows (row ∷ rows) s = elim (produce_row row s) [
    | none ↦ (s, false)
    | some s ↦ produce_rows rows s
  ]

  -- What the matcher gets, and what is stored in the pipeline's state.
  pub record Produced : Type 0 where
    pub messages : List (InboundOrderMsg doubles)
    pub produced_orders : ℕ
    pub producer_done : Bool

  -- `none` is a file that does not open.
  unfoldable pub produce : Option (List CsvRow) → Produced
  unfolding produce_rows
  produce none = record { messages = end_message ∷ []; produced_orders = 0; producer_done = true }
  produce (some rows) =
      let start : Producing = record {
        first_row = true;
        sequence = 1;
        produced = 0;
        pushed = [];
      } in
      let (s, ended) = produce_rows rows start in
      if ended
      then record {
        messages = s.pushed ++ end_message ∷ [];
        produced_orders = s.produced;
        producer_done = true;
      }
      else record { messages = s.pushed; produced_orders = 0; producer_done = false }
