-- ===== src/Types.antt =====
-- src/common/types.h and src/common/runtime_config.h: the enums, the limits, the order and the
-- execution report. A fixed `char` array is the text before its NUL, as a list of bytes.
pub mod Int
pub mod Names
pub mod Format
use flower_exchange.Base.{ℕ, suc, zero, ◌-◌, List, [], ◌∷◌, Option, none, some, ◌==◌, if◌then◌else◌}

abbrev pub Text : Type 0
Text = List ℕ

abbrev pub PriceTick : Type 0
PriceTick = ℕ

-- The address of an order in its pool; `Option Ptr` is an `Order *` that may be null.
abbrev pub Ptr : Type 0
Ptr = ℕ

pub data Side : Type 0 where
  buy sell : Side

pub data InstrumentType : Type 0 where
  rose lavender lotus tulip orchid count : InstrumentType

pub data ExecStatus : Type 0 where
  new rejected fill pfill : ExecStatus

-- The number behind each enumerator.
abbrev pub side_code : Side → ℕ
side_code buy = 1
side_code sell = 2

abbrev pub instrument_code : InstrumentType → ℕ
instrument_code rose = 0
instrument_code lavender = 1
instrument_code lotus = 2
instrument_code tulip = 3
instrument_code orchid = 4
instrument_code count = 5

abbrev pub quantity_multiple : ℕ
quantity_multiple = 10

abbrev pub min_quantity : ℕ
min_quantity = 10

abbrev pub max_quantity : ℕ
max_quantity = 1000

abbrev pub order_book_tick_capacity : ℕ
order_book_tick_capacity = 100001

abbrev pub max_valid_tick : ℕ
max_valid_tick = order_book_tick_capacity - 1

-- `for (; i < limit && source[i] != '\0'; ++i) target[i] = source[i];`
unfoldable pub copy_chars : ℕ → Text → Text
copy_chars zero source = []
copy_chars (suc limit) [] = []
copy_chars (suc limit) (c ∷ source) =
    let rest = copy_chars limit source in if c == 0 then [] else c ∷ rest

-- The same behind `if (source)`: a null source leaves the zeroed array.
unfoldable pub copy_field : ℕ → Option Text → Text
unfolding copy_chars
copy_field limit none = []
copy_field limit (some source) = copy_chars limit source

-- The intrusive order-book node.
pub record Order : Type 0 where
  pub oid : Text
  pub coid : Text
  pub instrument : InstrumentType
  pub side : Side
  pub price : PriceTick
  pub quantity : ℕ
  pub next : Option Ptr

-- `Order(oid, coid, instrument, side, price, quantity)`.
unfoldable pub make_order :
    Option Text → Option Text → InstrumentType → Side → PriceTick → ℕ → Order
unfolding copy_field
make_order oid coid instrument side price quantity = record {
  oid = copy_field 31 oid;
  coid = copy_field 63 coid;
  instrument = instrument;
  side = side;
  price = price;
  quantity = quantity;
  next = none;
}

-- `Order()`.
abbrev pub empty_order : Order
empty_order = record {
  oid = [];
  coid = [];
  instrument = count;
  side = buy;
  price = 0;
  quantity = 0;
  next = none;
}

pub record ExecutionReport : Type 0 where
  pub oid : Text
  pub coid : Text
  pub instrument : InstrumentType
  pub side : Side
  pub price : PriceTick
  pub quantity : ℕ
  pub status : ExecStatus
  pub reason : Text
  pub timestamp : Text

-- The timestamp of a report: the given text, unless it is null or empty; `now` is what
-- `fill_current_timestamp` reads off the system clock.
unfoldable pub report_timestamp : Text → Option Text → Text
unfolding copy_chars
report_timestamp now none = now
report_timestamp now (some []) = now
report_timestamp now (some (c ∷ text)) = if c == 0 then now else copy_chars 19 (c ∷ text)

-- `ExecutionReport(oid, coid, instrument, side, price, quantity, status, reason, timestamp)`.
unfoldable pub make_report :
    Text
    → Option Text
    → Option Text
    → InstrumentType
    → Side
    → PriceTick
    → ℕ
    → ExecStatus
    → Option Text
    → Option Text
    → ExecutionReport
unfolding copy_field report_timestamp
make_report now oid coid instrument side price quantity status reason timestamp = record {
  oid = copy_field 31 oid;
  coid = copy_field 63 coid;
  instrument = instrument;
  side = side;
  price = price;
  quantity = quantity;
  status = status;
  reason = copy_field 49 reason;
  timestamp = report_timestamp now timestamp;
}

-- `ExecutionReport()`.
abbrev pub empty_report : Text → ExecutionReport
empty_report now = record {
  oid = [];
  coid = [];
  instrument = count;
  side = buy;
  price = 0;
  quantity = 0;
  status = new;
  reason = [];
  timestamp = now;
}
