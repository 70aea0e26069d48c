-- ===== src/Matching/Priority.antt =====
-- The list in price-time priority and the levels that it stands for: its front is the oldest order
-- of the best level, and inserting joins the back of a level.
use mathlib.Core.Path.{fun_ext}
use flower_exchange.Base.{
  ◌≡◌, refl, ap, arith, inl, inr, true, false, ◌||◌, List, [], ◌∷◌, ◌++◌, ◌==◌, if◌then◌else◌,
  Bool-cases, ℤ, pos, negsuc, ==_self,
}
use flower_exchange.Types.{Ptr, PriceTick, Side, buy, sell}
use flower_exchange.OrderBook.Levels.{Levels, has, NoDup, relevel, IsLowest, IsHighest, IsOutside}
use flower_exchange.OrderBook.Queues.{join}
use flower_exchange.Matching.Reference.{
  Entry, better, NoBetter, IsSorted, orders_at, levels_of, orders_of, insert,
}

-- The tick of the best level of a side.
abbrev pub IsBest : Side → Levels → ℤ → Type 0
IsBest buy = IsHighest
IsBest sell = IsLowest

-- No order stands at a price better than a bound that no entry beats.
orders_at-better :
    (side : Side) (t u : PriceTick) (xs : List Entry)
    → NoBetter side t xs
    → better side u t ≡ true
    → orders_at u xs ≡ []
orders_at-better side t u [] n b = refl
orders_at-better buy t u (x ∷ xs) (w, n) b = ground (arith, orders_at-better buy t u xs n b)
orders_at-better sell t u (x ∷ xs) (w, n) b = ground (arith, orders_at-better sell t u xs n b)

pub best-nil : (side : Side) (r : ℤ) → IsBest side (levels_of []) r → r ≡ negsuc 0
best-nil buy (pos u) (e, _) = absurd (omega arith)
best-nil buy (negsuc n) (e, _) = ap negsuc e
best-nil sell (pos u) (e, _) = absurd (omega arith)
best-nil sell (negsuc n) (e, _) = ap negsuc e

pub best-cons :
    (side : Side) (x : Entry) (xs : List Entry) (r : ℤ)
    → IsSorted side (x ∷ xs)
    → IsBest side (levels_of (x ∷ xs)) r
    → r ≡ pos x.price
best-cons buy x xs (pos u) (n, _) (e, above) =
    ap pos (ground (arith, above x.price, orders_at-better buy x.price u xs n))
best-cons sell x xs (pos u) (n, _) (e, below) =
    ap pos (ground (arith, below x.price, orders_at-better sell x.price u xs n))
best-cons buy x xs (negsuc k) _ (e, all) = absurd (ground (arith, all x.price))
best-cons sell x xs (negsuc k) _ (e, all) = absurd (ground (arith, all x.price))

pub level-front :
    (x : Entry) (xs : List Entry) → levels_of (x ∷ xs) x.price ≡ x.order ∷ orders_at x.price xs
level-front x xs = rw (==_self x.price)

pub levels_of-tail :
    (x : Entry) (xs : List Entry)
    → relevel (levels_of (x ∷ xs)) x.price (orders_at x.price xs) ≡ levels_of xs
levels_of-tail x xs = fun_ext λ u. ground arith

pub has-orders_at :
    (p : Ptr) (t : PriceTick) (xs : List Entry)
    → has p (orders_at t xs) ≡ true
    → has p (orders_of xs) ≡ true
has-orders_at p t [] m = m
has-orders_at p t (x ∷ xs) m = ground (arith, has-orders_at p t xs)

pub orders_of-IsOutside :
    (p : Ptr) (xs : List Entry) → has p (orders_of xs) ≡ false → IsOutside p (levels_of xs)
orders_of-IsOutside p xs m t = ground (arith, has-orders_at p t xs)

-- Inserting.
module _ (side : Side) (e : Entry) where
  NoBetter-weaken :
      (t u : PriceTick) (xs : List Entry)
      → better side u t ≡ false
      → NoBetter side u xs
      → NoBetter side t xs
  NoBetter-weaken t u [] b n = tt
  NoBetter-weaken t u (x ∷ xs) b (w, n) = (trans side w b, NoBetter-weaken t u xs b n)
    where
      trans :
          (side : Side)
          → better side x.price u ≡ false
          → better side u t ≡ false
          → better side x.price t ≡ false
      trans buy p q = ground arith
      trans sell p q = ground arith

  NoBetter-insert :
      (t : PriceTick) (xs : List Entry)
      → better side e.price t ≡ false
      → NoBetter side t xs
      → NoBetter side t (insert side e xs)
  unfolding insert
  NoBetter-insert t [] b n = (b, tt)
  NoBetter-insert t (x ∷ xs) b (w, n) = elim (Bool-cases (better side e.price x.price)) [
    | inl front ↦ rw front (b, (w, n))
    | inr behind ↦ rw behind (w, NoBetter-insert t xs b n)
  ]

  pub insert-IsSorted : (xs : List Entry) → IsSorted side xs → IsSorted side (insert side e xs)
  unfolding insert
  insert-IsSorted [] s = (tt, tt)
  insert-IsSorted (x ∷ xs) (n, s) = elim (Bool-cases (better side e.price x.price)) [
    | inl front ↦
        rw front
          ((asymm side front, NoBetter-weaken e.price x.price xs (asymm side front) n), (n, s))
    | inr behind ↦ rw behind (NoBetter-insert x.price xs behind n, insert-IsSorted xs s)
  ]
    where
      asymm :
          (side : Side) → better side e.price x.price ≡ true → better side x.price e.price ≡ false
      asymm buy p = ground arith
      asymm sell p = ground arith

  orders_at-insert :
      (t : PriceTick) (xs : List Entry)
      → IsSorted side xs
      → orders_at t (insert side e xs)
        ≡ (if t == e.price then orders_at t xs ++ e.order ∷ [] else orders_at t xs)
  unfolding insert
  orders_at-insert t [] s = ground arith
  orders_at-insert t (x ∷ xs) (n, s) = elim (Bool-cases (better side e.price x.price)) [
    | inl front ↦
        let empty : orders_at e.price (x ∷ xs) ≡ [] =
          orders_at-better side x.price e.price (x ∷ xs) (irrefl side, n) front in
        rw front (new_level t (x ∷ xs) empty)
    | inr behind ↦ rw behind (ground (arith, orders_at-insert t xs s))
  ]
    where
      irrefl : (side : Side) → better side x.price x.price ≡ false
      irrefl buy = ground arith
      irrefl sell = ground arith

      new_level :
          (t : PriceTick) (ys : List Entry)
          → orders_at e.price ys ≡ []
          → orders_at t (e ∷ ys)
            ≡ (if t == e.price then orders_at t ys ++ e.order ∷ [] else orders_at t ys)
      new_level t ys empty = ground (arith, empty)

  pub levels_of-insert :
      (xs : List Entry)
      → IsSorted side xs
      → levels_of (insert side e xs) ≡ join (levels_of xs) e.price e.order
  levels_of-insert xs s = fun_ext λ t. ground (arith, orders_at-insert t xs s)

  pub orders_of-insert :
      (p : Ptr) (xs : List Entry)
      → has p (orders_of (insert side e xs)) ≡ ((p == e.order) || has p (orders_of xs))
  unfolding insert
  orders_of-insert p [] = refl
  orders_of-insert p (x ∷ xs) = ground (arith, orders_of-insert p xs)

  pub insert-NoDup :
      (xs : List Entry)
      → has e.order (orders_of xs) ≡ false
      → NoDup (orders_of xs)
      → NoDup (orders_of (insert side e xs))
  unfolding insert
  insert-NoDup [] new nodup = (refl, tt)
  insert-NoDup (x ∷ xs) new (first, nodup) = elim (Bool-cases (better side e.price x.price)) [
    | inl front ↦ rw front (new, (first, nodup))
    | inr behind ↦
        rw behind
          (ground (arith, orders_of-insert x.order xs), insert-NoDup xs (ground arith) nodup)
  ]
