-- ===== src/OrderBook/Bitmask.antt =====
-- src/matching/bitmask_order_book.cpp: a dense array of price levels with a bitmask index. A level
-- is a linked list through `Order::next`. An access out of a vector's range, and a read through a
-- null or stale pointer, is the fault `none`. `int64_t` values are ticks or -1, so ℤ holds them.
pub mod Scan
pub mod Chain
pub mod Rep
pub mod Ends
pub mod Add
pub mod Next
pub mod Pop
pub mod Strategy
pub mod Marks
pub mod Mask
use flower_exchange.Base.{
  ℕ, zero, suc, ◌+◌, ◌-◌, ◌*◌, ◌/◌, ◌%◌, ◌^◌, bit_and, bit_or, Bool, true, false, ◌||◌, Option,
  none, some, List, [], ◌∷◌, length, get_elem?, set, drop, replicate, ltb, leb, ◌==◌, if◌then◌else◌,
  ◌>>=◌, ℤ, pos, negsuc, ltb_ℤ, eqb_ℤ,
}
use flower_exchange.Types.{Order, Ptr, PriceTick}
use flower_exchange.Bits.{complement, ctzll, clzll}
use flower_exchange.OrderBook.Heap.{Heap, set_next}

pub record BitmaskOrderBook : Type 0 where
  pub price_levels : List (Option Ptr)
  pub price_level_tails : List (Option Ptr)
  pub mask : List ℕ
  pub best_first : ℤ
  pub best_last : ℤ

-- `xs[i] = v`.
unfoldable pub put {ℓ} : {A : Type ℓ} → List A → ℕ → A → Option (List A)
put xs i v = do _ ← get_elem? xs i; some (set xs i v)

-- `BitmaskOrderBook(max_ticks)`.
unfoldable pub init : ℕ → BitmaskOrderBook
init max_ticks = record {
  price_levels = replicate max_ticks none;
  price_level_tails = replicate max_ticks none;
  mask = replicate ((max_ticks + 63) / 64) 0;
  best_first = negsuc 0;
  best_last = negsuc 0;
}

-- `std::find_if` over the words from index `i` on, and the tick of the word found.
unfoldable pub scan_up : ℕ → List ℕ → ℤ
scan_up i [] = negsuc 0
scan_up i (w ∷ words) =
    let rest = scan_up (suc i) words in if w == 0 then rest else pos (i * 64 + ctzll w)

-- `for (i = word; i-- > 0;)`.
unfoldable pub scan_down : ℕ → List ℕ → Option ℤ
scan_down zero mask = some (negsuc 0)
scan_down (suc i) mask = do
  w ← get_elem? mask i
  let rest = scan_down i mask
  if w == 0 then rest else some (pos (i * 64 + (63 - clzll w)))

-- The bits of a word strictly above a position, and strictly below it.
unfoldable pub keep_above : ℕ → ℕ → ℕ
keep_above bits bit_in_word =
    if ltb bit_in_word 63 then bit_and bits (complement (2 ^ (bit_in_word + 1) - 1)) else 0

unfoldable pub keep_below : ℕ → ℕ → ℕ
keep_below bits bit_in_word = if ltb 0 bit_in_word then bit_and bits (2 ^ bit_in_word - 1) else 0

unfoldable pub find_next_from : PriceTick → List ℕ → Option ℤ
find_next_from tick mask =
    let word = tick / 64 in
    let bit_in_word = tick % 64 in
    if leb (length mask) word then some (negsuc 0) else do
      bits ← get_elem? mask word
      let kept = keep_above bits bit_in_word
      if kept == 0
          then some (scan_up (word + 1) (drop (word + 1) mask))
          else some (pos (word * 64 + ctzll kept))

unfoldable pub find_prev_from : PriceTick → List ℕ → Option ℤ
find_prev_from tick [] = some (negsuc 0)
find_prev_from tick (first ∷ others) =
    let mask = first ∷ others in
    let bit_in_word = tick % 64 in
    let word = if leb (length mask) (tick / 64) then length mask - 1 else tick / 64 in
    do
      bits ← get_elem? mask word
      let kept = keep_below bits bit_in_word
      if kept == 0 then scan_down word mask else some (pos (word * 64 + (63 - clzll kept)))

-- The first order of a level: both ends, the bit, and the two cached ticks.
unfoldable pub open_level : PriceTick → Ptr → BitmaskOrderBook → Option BitmaskOrderBook
unfolding put
open_level tick order b = do
  levels ← put b.price_levels tick (some order)
  tails ← put b.price_level_tails tick (some order)
  bits ← get_elem? b.mask (tick / 64)
  some (record {
    price_levels = levels;
    price_level_tails = tails;
    mask = set b.mask (tick / 64) (bit_or bits (2 ^ (tick % 64)));
    best_first =
        if ltb_ℤ b.best_first (pos 0) || ltb_ℤ (pos tick) b.best_first
        then pos tick
        else b.best_first;
    best_last =
        if ltb_ℤ b.best_last (pos 0) || ltb_ℤ b.best_last (pos tick) then pos tick else b.best_last;
  })

-- An order behind the level's last one.
unfoldable pub extend_level :
    PriceTick → Ptr → BitmaskOrderBook → Heap → Option (BitmaskOrderBook × Heap)
unfolding put
extend_level tick order b h = do
  tail ← get_elem? b.price_level_tails tick
  last ← tail
  h ← set_next last (some order) h
  tails ← put b.price_level_tails tick (some order)
  some (record b { price_level_tails = tails }, h)

unfoldable pub add_order_known_valid :
    PriceTick → Option Ptr → BitmaskOrderBook → Heap → Option (BitmaskOrderBook × Heap)
add_order_known_valid tick none b h = some (b, h)
add_order_known_valid tick (some order) b h = do
  h ← set_next order none h
  level ← get_elem? b.price_levels tick
  elim level [
    | none ↦ do b ← open_level tick order b; some (b, h)
    | some _ ↦ extend_level tick order b h
  ]

unfoldable pub peek_order_known_valid : PriceTick → BitmaskOrderBook → Option (Option Ptr)
peek_order_known_valid tick b = get_elem? b.price_levels tick

-- The level's last order is gone: its tail, its bit, and the cached ticks that named it.
unfoldable pub close_level : PriceTick → BitmaskOrderBook → Option BitmaskOrderBook
unfolding put
close_level tick b = do
  tails ← put b.price_level_tails tick none
  bits ← get_elem? b.mask (tick / 64)
  let mask = set b.mask (tick / 64) (bit_and bits (complement (2 ^ (tick % 64))))
  best_first ← if eqb_ℤ b.best_first (pos tick) then find_next_from tick mask else some b.best_first
  best_last ← if eqb_ℤ b.best_last (pos tick) then find_prev_from tick mask else some b.best_last
  some (record b {
    price_level_tails = tails;
    mask = mask;
    best_first = best_first;
    best_last = best_last;
  })

unfoldable pub pop_order_known_valid :
    PriceTick → BitmaskOrderBook → Heap → Option (Option Ptr × BitmaskOrderBook × Heap)
pop_order_known_valid tick b h = do
  head ← get_elem? b.price_levels tick
  elim head [
    | none ↦ some (none, b, h)
    | some order ↦ do
      o ← h order
      levels ← put b.price_levels tick o.next
      h ← set_next order none h
      elim o.next [
        | some _ ↦ some (some order, record b { price_levels = levels }, h)
        | none ↦ do
          b ← close_level tick (record b { price_levels = levels })
          some (some order, b, h)
      ]
  ]

unfoldable pub find_first : BitmaskOrderBook → ℤ
find_first b = b.best_first

unfoldable pub find_last : BitmaskOrderBook → ℤ
find_last b = b.best_last
