-- ===== src/OrderBook/Heap.antt =====
-- The orders by address. Both strategies and the engine hold `Order *`, so the orders that an
-- operation reads and writes are one shared store; `none` is an address that holds no order, and
-- reading or writing through it is a fault.
pub mod Laws
use flower_exchange.Base.{ℕ, Option, some, ◌==◌, if◌then◌else◌, ◌>>=◌}
use flower_exchange.Types.{Order, Ptr}

abbrev pub Heap : Type 0
Heap = Ptr → Option Order

unfoldable pub write : Heap → Ptr → Option Order → Heap
write h p o a = if a == p then o else h a

-- `order->next = next`.
unfoldable pub set_next : Ptr → Option Ptr → Heap → Option Heap
unfolding write
set_next p next h = do o ← h p; some (write h p (some (record o { next = next })))

-- `order->quantity = quantity`.
unfoldable pub set_quantity : Ptr → ℕ → Heap → Option Heap
unfolding write
set_quantity p quantity h = do o ← h p; some (write h p (some (record o { quantity = quantity })))
