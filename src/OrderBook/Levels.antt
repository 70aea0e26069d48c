-- ===== src/OrderBook/Levels.antt =====
-- The abstract view of a book: the queue of orders at each price tick, oldest first; and what it
-- means for an `int64_t` to name its lowest or highest occupied tick, -1 if there is none.
use flower_exchange.Base.{
  ℕ, ◌≤◌, ◌<◌, ◌≡◌, refl, arith, List, [], ◌∷◌, ◌++◌, Option, none, some, Bool, true, false, ◌||◌,
  ◌==◌, if◌then◌else◌, ℤ, pos, negsuc,
}
use flower_exchange.Types.{Ptr, PriceTick, Order}
use flower_exchange.OrderBook.Heap.{Heap}

abbrev pub Levels : Type 0
Levels = PriceTick → List Ptr

-- 1 at a tick that holds an order.
abbrev pub has_order : List Ptr → ℕ
has_order [] = 0
has_order (p ∷ ps) = 1

-- The least index from `lo` on at which `f` is 1; -1 if `f` is 0 from there on.
abbrev pub IsLeast : (ℕ → ℕ) → ℕ → ℤ → Type 0
IsLeast f lo (pos u) = (lo ≤ u) × (f u ≡ 1) × ((v : ℕ) → lo ≤ v → v < u → f v ≡ 0)
IsLeast f lo (negsuc n) = (n ≡ 0) × ((v : ℕ) → lo ≤ v → f v ≡ 0)

-- The greatest index below `hi` at which `f` is 1; -1 if `f` is 0 below `hi`.
abbrev pub IsGreatest : (ℕ → ℕ) → ℕ → ℤ → Type 0
IsGreatest f hi (pos u) = (u < hi) × (f u ≡ 1) × ((v : ℕ) → u < v → v < hi → f v ≡ 0)
IsGreatest f hi (negsuc n) = (n ≡ 0) × ((v : ℕ) → v < hi → f v ≡ 0)

-- A stretch of zeros can be put in front, or behind.
pub IsLeast-extend :
    (f : ℕ → ℕ) (lo lo' : ℕ) (r : ℤ)
    → lo ≤ lo'
    → ((v : ℕ) → lo ≤ v → v < lo' → f v ≡ 0)
    → IsLeast f lo' r
    → IsLeast f lo r
IsLeast-extend f lo lo' (pos u) h zeros (l, e, low) =
    (omega arith, e, λ v p q. ground (arith, zeros v, low v))
IsLeast-extend f lo lo' (negsuc n) h zeros (e, low) = (e, λ v p. ground (arith, zeros v, low v))

pub IsGreatest-extend :
    (f : ℕ → ℕ) (hi hi' : ℕ) (r : ℤ)
    → hi ≤ hi'
    → ((v : ℕ) → hi ≤ v → v < hi' → f v ≡ 0)
    → IsGreatest f hi r
    → IsGreatest f hi' r
IsGreatest-extend f hi hi' (pos u) h zeros (l, e, high) =
    (omega arith, e, λ v p q. ground (arith, zeros v, high v))
IsGreatest-extend f hi hi' (negsuc n) h zeros (e, high) =
    (e, λ v p. ground (arith, zeros v, high v))

abbrev pub has : Ptr → List Ptr → Bool
has p [] = false
has p (q ∷ ps) = (p == q) || has p ps

abbrev pub NoDup : List Ptr → Type 0
NoDup [] = Unit {0}
NoDup (p ∷ ps) = (has p ps ≡ false) × NoDup ps

-- The levels with the queue at one tick given anew.
abbrev pub relevel : Levels → PriceTick → List Ptr → Levels
relevel levels t ps u = if u == t then ps else levels u

-- The order is nowhere in the book.
abbrev pub IsOutside : Ptr → Levels → Type 0
IsOutside p levels = (t : PriceTick) → has p (levels t) ≡ false

pub has-append : (p : Ptr) (xs ys : List Ptr) → has p (xs ++ ys) ≡ (has p xs || has p ys)
has-append p [] ys = refl
has-append p (x ∷ xs) ys = ground (arith, has-append p xs ys)

pub NoDup-snoc : (p : Ptr) (ps : List Ptr) → NoDup ps → has p ps ≡ false → NoDup (ps ++ p ∷ [])
NoDup-snoc p [] n h = (refl, tt)
NoDup-snoc p (q ∷ ps) (new, n) h =
    (ground (arith, has-append q ps (p ∷ [])), NoDup-snoc p ps n (ground arith))

pub has_order-snoc : (ps : List Ptr) (p : Ptr) → has_order (ps ++ p ∷ []) ≡ 1
has_order-snoc [] p = refl
has_order-snoc (q ∷ ps) p = refl

-- What a heap says of the links, and of all else.
abbrev pub next_of : Option Order → Option (Option Ptr)
next_of none = none
next_of (some o) = some o.next

abbrev pub unlinked : Option Order → Option Order
unlinked none = none
unlinked (some o) = some (record o { next = none })

-- The links of a book's orders are the same in both heaps.
abbrev pub SameLinks : Levels → Heap → Heap → Type 0
SameLinks levels h h' =
    (p : Ptr) (t : PriceTick) → has p (levels t) ≡ true → next_of (h' p) ≡ next_of (h p)

-- The heaps agree but for links.
abbrev pub SameOrders : Heap → Heap → Type 0
SameOrders h h' = (p : Ptr) → unlinked (h' p) ≡ unlinked (h p)

abbrev pub head_of : List Ptr → Option Ptr
head_of [] = none
head_of (p ∷ ps) = some p

-- `find_first` and `find_last`: the tick of the lowest and of the highest level that is not empty.
abbrev pub IsLowest : Levels → ℤ → Type 0
IsLowest levels (pos u) = (has_order (levels u) ≡ 1) × ((v : ℕ) → v < u → has_order (levels v) ≡ 0)
IsLowest levels (negsuc n) = (n ≡ 0) × ((v : ℕ) → has_order (levels v) ≡ 0)

abbrev pub IsHighest : Levels → ℤ → Type 0
IsHighest levels (pos u) = (has_order (levels u) ≡ 1) × ((v : ℕ) → u < v → has_order (levels v) ≡ 0)
IsHighest levels (negsuc n) = (n ≡ 0) × ((v : ℕ) → has_order (levels v) ≡ 0)
