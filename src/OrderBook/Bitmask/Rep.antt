-- ===== src/OrderBook/Bitmask/Rep.antt =====
-- What a bitmask book stands for, and the reads that follow from it.
use flower_exchange.Base.{
  ℕ, ◌+◌, ◌-◌, ◌*◌, ◌/◌, ◌≤◌, ◌<◌, ◌≡◌, refl, sym, ap, ◌∙◌, arith, inl, inr, List, [], ◌∷◌, Option,
  none, some, ltb, ℤ, pos, negsuc, length, get_elem?, set, Bool-cases, get_elem?_of_lt,
  eq_of_get_elem?-replicate, length-replicate,
}
use flower_exchange.Types.{Ptr, PriceTick}
use flower_exchange.Bits.Laws.{test_bit-zero}
use flower_exchange.OrderBook.Heap.{Heap}
use flower_exchange.OrderBook.Queues.{IsQueues}
use flower_exchange.OrderBook.Levels.{
  Levels, has_order, head_of, SameLinks, IsLowest, IsHighest, IsLeast, IsGreatest,
}
use flower_exchange.OrderBook.Bitmask.{
  BitmaskOrderBook, put, init, find_first, find_last, peek_order_known_valid,
}
use flower_exchange.OrderBook.Bitmask.Chain.{Chain, Chain-frame, tail_of}
use flower_exchange.OrderBook.Bitmask.Marks.{IsMask}

abbrev pub occupied : Levels → ℕ → ℕ
occupied levels t = has_order (levels t)

pub record IsBook (max_ticks : ℕ) (b : BitmaskOrderBook) (h : Heap) (levels : Levels) : Type 0 where
  pub levels_length : length b.price_levels ≡ max_ticks
  pub tails_length : length b.price_level_tails ≡ max_ticks
  pub mask_length : length b.mask ≡ (max_ticks + 63) / 64
  pub chain :
      (t : ℕ) (head : Option Ptr) → get_elem? b.price_levels t ≡ some head → Chain h head (levels t)
  pub tail :
      (t : ℕ) (last : Option Ptr)
      → get_elem? b.price_level_tails t ≡ some last
      → last ≡ tail_of (levels t)
  pub queues : IsQueues levels
  pub beyond : (t : ℕ) → max_ticks ≤ t → levels t ≡ []
  pub bits : IsMask (occupied levels) b.mask
  pub first : IsLeast (occupied levels) 0 b.best_first
  pub last : IsGreatest (occupied levels) max_ticks b.best_last

pub Chain-head_of :
    (h : Heap) (head : Option Ptr) (ps : List Ptr) → Chain h head ps → head ≡ head_of ps
Chain-head_of h head [] c = c
Chain-head_of h head (p ∷ ps) (n, e, _, _) = e

IsLeast-IsLowest : (levels : Levels) (r : ℤ) → IsLeast (occupied levels) 0 r → IsLowest levels r
IsLeast-IsLowest levels (pos u) (l, e, low) = (e, λ v p. low v (omega arith) p)
IsLeast-IsLowest levels (negsuc n) (e, low) = (e, λ v. low v (omega arith))

IsGreatest-IsHighest :
    (levels : Levels) (n : ℕ) (r : ℤ)
    → ((t : ℕ) → n ≤ t → levels t ≡ [])
    → IsGreatest (occupied levels) n r
    → IsHighest levels r
IsGreatest-IsHighest levels n (pos u) beyond (l, e, high) =
    (e, λ v p. ground (arith, high v, beyond v))
IsGreatest-IsHighest levels n (negsuc m) beyond (e, high) =
    (e, λ v. ground (arith, high v, beyond v))

-- A new book, of any size and on any heap, is well-formed and every level of it is empty.
pub init-IsBook : (max_ticks : ℕ) (h : Heap) → IsBook max_ticks (init max_ticks) h (λ t. [])
unfolding init
init-IsBook n h = record {
  levels_length = length-replicate n none;
  tails_length = length-replicate n none;
  mask_length = length-replicate ((n + 63) / 64) 0;
  chain = λ t head e. eq_of_get_elem?-replicate n t none head e;
  tail = λ t last e. eq_of_get_elem?-replicate n t none last e;
  queues = record { nodup = λ t. tt; apart = λ p t u e f. cc };
  beyond = λ t l. refl;
  bits = record {
    holds = λ i w e.
        let z : w ≡ 0 = eq_of_get_elem?-replicate ((n + 63) / 64) i 0 w e in
        rw z (omega arith, λ v p q. sym (test_bit-zero (v - i * 64)));
    beyond = λ v l. refl;
  };
  first = (refl, λ v l. refl);
  last = (refl, λ v l. refl);
}

pub IsBook-frame :
    (n : ℕ) (b : BitmaskOrderBook) (h h' : Heap) (levels : Levels)
    → IsBook n b h levels
    → SameLinks levels h h'
    → IsBook n b h' levels
IsBook-frame n b h h' levels r same = record {
  levels_length = r.levels_length;
  tails_length = r.tails_length;
  mask_length = r.mask_length;
  chain = λ t head e. Chain-frame h h' head (levels t) (λ p m. same p t m) (r.chain t head e);
  tail = r.tail;
  queues = r.queues;
  beyond = r.beyond;
  bits = r.bits;
  first = r.first;
  last = r.last;
}

module _ (n : ℕ) (b : BitmaskOrderBook) (h : Heap) (levels : Levels) (r : IsBook n b h levels) where
  pub occupied-lt : (t : ℕ) → has_order (levels t) ≡ 1 → t < n
  occupied-lt t e = elim (Bool-cases (ltb t n)) [
    | inl l ↦ ground arith
    | inr l ↦ absurd (ground (arith, r.beyond t))
  ]

  pub peek-head : (t : PriceTick) → t < n → peek_order_known_valid t b ≡ some (head_of (levels t))
  unfolding peek_order_known_valid
  peek-head t l =
      let (head, e) = get_elem?_of_lt b.price_levels t (rw r.levels_length l) in
      e ∙ ap some (Chain-head_of h head (levels t) (r.chain t head e))

  pub first-IsLowest : IsLowest levels (find_first b)
  unfolding find_first
  first-IsLowest = IsLeast-IsLowest levels b.best_first r.first

  pub last-IsHighest : IsHighest levels (find_last b)
  unfolding find_last
  last-IsHighest = IsGreatest-IsHighest levels n b.best_last r.beyond r.last

pub put-some {ℓ} :
    {A : Type ℓ} (xs : List A) (i : ℕ) (v : A) → i < length xs → put xs i v ≡ some (set xs i v)
unfolding put
put-some xs i v l = let (x, e) = get_elem?_of_lt xs i l in rw e
