-- ===== src/OrderBook/Bitmask/Ends.antt =====
-- The least and the greatest tick once a level opens.
use flower_exchange.Base.{
  ℕ, ◌<◌, arith, inl, inr, ◌||◌, ltb, if◌then◌else◌, ℤ, pos, negsuc, Bool-cases, ltb_ℤ,
}
use flower_exchange.Types.{PriceTick}
use flower_exchange.OrderBook.Levels.{IsLeast, IsGreatest}
use flower_exchange.OrderBook.Bitmask.Marks.{update}

abbrev pub min_tick : PriceTick → ℤ → ℤ
min_tick t first = if ltb_ℤ first (pos 0) || ltb_ℤ (pos t) first then pos t else first

abbrev pub max_tick : PriceTick → ℤ → ℤ
max_tick t last = if ltb_ℤ last (pos 0) || ltb_ℤ last (pos t) then pos t else last

pub min_tick-IsLeast :
    (f : ℕ → ℕ) (t : ℕ) (r : ℤ) → IsLeast f 0 r → IsLeast (update f t 1) 0 (min_tick t r)
min_tick-IsLeast f t (pos u) (l, e, low) = elim (Bool-cases (ltb t u)) [
  | inl p ↦ ground arith
  | inr p ↦ ground arith
]
min_tick-IsLeast f t (negsuc n) (e, low) = ground arith

pub max_tick-IsGreatest :
    (f : ℕ → ℕ) (t n : ℕ) (r : ℤ)
    → t < n
    → IsGreatest f n r
    → IsGreatest (update f t 1) n (max_tick t r)
max_tick-IsGreatest f t n (pos u) lt (l, e, high) = elim (Bool-cases (ltb u t)) [
  | inl p ↦ ground arith
  | inr p ↦ ground arith
]
max_tick-IsGreatest f t n (negsuc m) lt (e, high) = ground arith
