-- ===== src/OrderBook/Map/Levels.antt =====
-- The entries of the map, in ascending order and none empty, as levels.
use flower_exchange.Base.{
  ℕ, suc, ◌^◌, ◌≤◌, ◌<◌, ◌≡◌, refl, ap, ◌∙◌, arith, inl, inr, true, false, some, List, [], ◌∷◌,
  ◌++◌, ltb, ◌==◌, if◌then◌else◌, Bool-cases, ==_self, ℤ, pos, negsuc,
}
use flower_exchange.Types.{Ptr, PriceTick}
use flower_exchange.OrderBook.Levels.{has_order, has_order-snoc, head_of, IsLowest, IsHighest}
use flower_exchange.OrderBook.Map.{
  Level, MapOrderBook, push_back, find, pop_front, front, find_first, find_last,
}

-- The queue of a tick, empty if it has no entry.
abbrev pub queue : MapOrderBook → PriceTick → List Ptr
queue [] t = []
queue (l ∷ ls) t = if t == l.tick then l.orders else queue ls t

-- From `lo` on, strictly ascending ticks that fit an `int64_t`, and no empty entry.
abbrev pub IsAscending : ℕ → MapOrderBook → Type 0
IsAscending lo [] = Unit {0}
IsAscending lo (l ∷ ls) =
    (lo ≤ l.tick) × (l.tick < 2 ^ 63) × (has_order l.orders ≡ 1) × IsAscending (suc l.tick) ls

pub queue-below :
    (lo : ℕ) (b : MapOrderBook) (t : PriceTick) → IsAscending lo b → t < lo → queue b t ≡ []
queue-below lo [] t a h = refl
queue-below lo (l ∷ ls) t (low, fits, full, a) h =
    let e : (t == l.tick) ≡ false = ground arith in
    rw e (queue-below (suc l.tick) ls t a (omega arith))

pub front-find : (b : MapOrderBook) (t : PriceTick) → front (find t b) ≡ head_of (queue b t)
unfolding find front
front-find [] t = refl
front-find (l ∷ ls) t = elim (Bool-cases (t == l.tick)) [
  | inl e ↦ rw e (front-head l.orders)
  | inr e ↦ rw e (front-find ls t)
]
  where
    front-head : (ps : List Ptr) → front (some ps) ≡ head_of ps
    front-head [] = refl
    front-head (p ∷ ps) = refl

pub push_back-IsAscending :
    (lo : ℕ) (b : MapOrderBook) (t : PriceTick) (p : Ptr)
    → IsAscending lo b
    → lo ≤ t
    → t < 2 ^ 63
    → IsAscending lo (push_back t p b)
unfolding push_back
push_back-IsAscending lo [] t p a low fits = (low, fits, refl, tt)
push_back-IsAscending lo (l ∷ ls) t p (al, af, full, a) low fits =
    elim (Bool-cases (ltb t l.tick)) [
      | inl e ↦ rw e (low, fits, refl, (ground arith, af, full, a))
      | inr e ↦ elim (Bool-cases (t == l.tick)) [
        | inl f ↦ rw (e, f) (al, af, has_order-snoc l.orders p, a)
        | inr f ↦
            rw (e, f)
              (al, af, full, push_back-IsAscending (suc l.tick) ls t p a (ground arith) fits)
      ]
    ]

pub push_back-queue :
    (lo : ℕ) (b : MapOrderBook) (t : PriceTick) (p : Ptr) (u : PriceTick)
    → IsAscending lo b
    → queue (push_back t p b) u ≡ (if u == t then queue b t ++ p ∷ [] else queue b u)
unfolding push_back
push_back-queue lo [] t p u a = refl
push_back-queue lo (l ∷ ls) t p u (al, af, full, a) = elim (Bool-cases (ltb t l.tick)) [
  | inl e ↦
      let ne : (t == l.tick) ≡ false = ground arith in
      rw (e, ne, queue-below (suc l.tick) ls t a (ground arith)) refl
  | inr e ↦ elim (Bool-cases (t == l.tick)) [
    | inl f ↦ rw (e, f) (ground arith)
    | inr f ↦ rw (e, f) (ground (arith, push_back-queue (suc l.tick) ls t p u a))
  ]
]

queue_self : (l : Level) (ls : MapOrderBook) → queue (l ∷ ls) l.tick ≡ l.orders
queue_self l ls = rw (==_self l.tick)

pub first-IsLowest : (b : MapOrderBook) → IsAscending 0 b → IsLowest (queue b) (find_first b)
unfolding find_first
first-IsLowest [] a = (refl, λ v. refl)
first-IsLowest (l ∷ ls) (low, fits, full, a) =
    let int64 : ltb l.tick (2 ^ 63) ≡ true = ground arith in
    rw int64 (
      ap has_order (queue_self l ls) ∙ full,
      λ v h. ap has_order (queue-below l.tick (l ∷ ls) v (omega arith, fits, full, a) h),
    )

-- An entry in front of the others does not change which one is last.
cons-IsHighest :
    (lo : ℕ) (l m : Level) (ms : MapOrderBook) (r : ℤ)
    → IsAscending lo (l ∷ m ∷ ms)
    → IsHighest (queue (m ∷ ms)) r
    → IsHighest (queue (l ∷ m ∷ ms)) r
cons-IsHighest lo l m ms (pos u) (low, fits, full, a) (there, above) =
    let beyond : l.tick < u = ground (arith, queue-below (suc l.tick) (m ∷ ms) u a) in
    let ne : (u == l.tick) ≡ false = ground arith in
    (rw ne there, λ v h. let ne' : (v == l.tick) ≡ false = ground arith in rw ne' (above v h))
cons-IsHighest lo l m ms (negsuc n) (low, fits, full, (_, _, some_order, _)) (e, none_there) =
    absurd (ground (arith, none_there m.tick, queue_self m ms))

pub last-IsHighest :
    (lo : ℕ) (b : MapOrderBook) → IsAscending lo b → IsHighest (queue b) (find_last b)
unfolding find_last
last-IsHighest lo [] a = (refl, λ v. refl)
last-IsHighest lo (l ∷ []) (low, fits, full, a) =
    let int64 : ltb l.tick (2 ^ 63) ≡ true = ground arith in
    rw int64 (
      ap has_order (queue_self l []) ∙ full,
      λ v h. let ne : (v == l.tick) ≡ false = ground arith in rw ne refl,
    )
last-IsHighest lo (l ∷ m ∷ ms) (low, fits, full, a) =
    cons-IsHighest lo l m ms (find_last (m ∷ ms)) (low, fits, full, a)
      (last-IsHighest (suc l.tick) (m ∷ ms) a)

IsAscending-weaken :
    (lo lo' : ℕ) (b : MapOrderBook) → lo ≤ lo' → IsAscending lo' b → IsAscending lo b
IsAscending-weaken lo lo' [] h a = tt
IsAscending-weaken lo lo' (l ∷ ls) h (low, fits, full, a) = (omega arith, fits, full, a)

pub pop_front-IsAscending :
    (lo : ℕ) (b : MapOrderBook) (t : PriceTick) → IsAscending lo b → IsAscending lo (pop_front t b)
unfolding pop_front
pop_front-IsAscending lo [] t a = tt
pop_front-IsAscending lo (l ∷ ls) t (low, fits, full, a) = elim (Bool-cases (t == l.tick)) [
  | inl e ↦ rw e (by_orders l.orders)
  | inr e ↦ rw e (low, fits, full, pop_front-IsAscending (suc l.tick) ls t a)
]
  where
    by_orders :
        (orders : List Ptr)
        → IsAscending lo (elim orders [
          | [] ↦ ls
          | p ∷ ps ↦ elim ps [ [] ↦ ls | q ∷ qs ↦ record { tick = l.tick; orders = q ∷ qs } ∷ ls ]
        ])
    by_orders [] = IsAscending-weaken lo (suc l.tick) ls (omega arith) a
    by_orders (p ∷ []) = IsAscending-weaken lo (suc l.tick) ls (omega arith) a
    by_orders (p ∷ q ∷ qs) = (low, fits, refl, a)

pub pop_front-queue :
    (lo : ℕ) (b : MapOrderBook) (t : PriceTick) (p : Ptr) (ps : List Ptr) (u : PriceTick)
    → IsAscending lo b
    → queue b t ≡ p ∷ ps
    → queue (pop_front t b) u ≡ (if u == t then ps else queue b u)
unfolding pop_front
pop_front-queue lo [] t p ps u a e = absurd (ground arith)
pop_front-queue lo (l ∷ ls) t p ps u (low, fits, full, a) e = elim (Bool-cases (t == l.tick)) [
  | inl f ↦ let at : l.orders ≡ p ∷ ps = ground arith in rw (f, at) (by_rest ps (ground arith))
  | inr f ↦
      let there : queue ls t ≡ p ∷ ps = ground arith in
      rw f (ground (arith, pop_front-queue (suc l.tick) ls t p ps u a there))
]
  where
    by_rest :
        (qs : List Ptr)
        → t ≡ l.tick
        → queue (elim qs [ [] ↦ ls | q ∷ qs ↦ record { tick = l.tick; orders = q ∷ qs } ∷ ls ]) u
          ≡ (if u == t then qs else if u == l.tick then p ∷ ps else queue ls u)
    by_rest [] at = ground (arith, queue-below (suc l.tick) ls u a)
    by_rest (q ∷ qs) at = ground arith
