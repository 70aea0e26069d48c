-- ===== src/OrderBook/Bitmask/Pop.antt =====
-- `pop_order_known_valid`: the oldest order of a level leaves it, with no fault.
use mathlib.Core.Path.{fun_ext}
use flower_exchange.Base.{
  ℕ, ◌/◌, ◌%◌, ◌^◌, ◌<◌, ◌≡◌, ◌≢◌, refl, sym, ap, subst, ◌∙◌, arith, inl, inr, List, [], ◌∷◌,
  Option, none, some, true, ◌==◌, ℤ, length, get_elem?, set, Bool-cases, get_elem?_of_lt,
  get_elem?-set_self, get_elem?-set_ne, length-set, bit_and, ◌>>=◌,
}
use flower_exchange.Types.{Ptr, PriceTick, Order}
use flower_exchange.Bits.{complement}
use flower_exchange.OrderBook.Heap.{Heap, write}
use flower_exchange.OrderBook.Heap.Laws.{write-ne, set_next-some, relink-SameOrders}
use flower_exchange.OrderBook.Queues.{has-leave, leave-IsQueues}
use flower_exchange.OrderBook.Levels.{
  Levels, has, has_order, head_of, NoDup, relevel, SameOrders, IsLeast, IsGreatest, next_of,
}
use flower_exchange.OrderBook.Bitmask.{BitmaskOrderBook, put, close_level, pop_order_known_valid}
use flower_exchange.OrderBook.Bitmask.Chain.{Chain, Chain-frame, tail_of}
use flower_exchange.OrderBook.Bitmask.Marks.{IsMask, update, clear-IsMask}
use flower_exchange.OrderBook.Bitmask.Rep.{IsBook, occupied, Chain-head_of, occupied-lt, put-some}
use flower_exchange.OrderBook.Bitmask.Next.{next_first, next_last}

module _ (n : ℕ) (b : BitmaskOrderBook) (h : Heap) (levels : Levels) (t : PriceTick) (p : Ptr)
    (ps : List Ptr) (r : IsBook n b h levels) (full : levels t ≡ p ∷ ps) (o : Order)
    (live : h p ≡ some o) where
  abbrev unlinked_heap : Heap
  unlinked_heap = write h p (some (record o { next = none }))

  in_range : t < n
  in_range = occupied-lt n b h levels r t (ground (arith, full))

  rest-SameLinks :
      (q : Ptr) (u : PriceTick)
      → has q (relevel levels t ps u) ≡ true
      → next_of (unlinked_heap q) ≡ next_of (h q)
  rest-SameLinks q u m =
      ap next_of (write-ne h p (some (record o { next = none })) q (elsewhere (r.queues.nodup t)))
    where
      elsewhere : NoDup (levels t) → q ≢ p
      elsewhere nodup = ground (
        arith,
        subst NoDup full nodup,
        full,
        r.queues.apart q t u,
        has-leave levels t p ps q u full m,
      )

  -- The level's list behind its first order.
  rest-Chain : Chain h o.next ps
  rest-Chain =
      let (head, e) = get_elem?_of_lt b.price_levels t (rw r.levels_length in_range) in
      let whole : Chain h head (p ∷ ps) = subst (Chain h head) full (r.chain t head e) in
      let link : whole.0 ≡ o.next = ground (arith, whole.2, live) in
      subst (λ x. Chain h x ps) link whole.3

  left-Chain :
      (u : PriceTick) (head : Option Ptr)
      → get_elem? (set b.price_levels t o.next) u ≡ some head
      → Chain unlinked_heap head (relevel levels t ps u)
  left-Chain u head e =
      Chain-frame h unlinked_heap head (relevel levels t ps u) (λ q m. rest-SameLinks q u m)
        (elim (Bool-cases (u == t)) [
          | inl at ↦
              let here : t ≡ u = ground arith in
              let starts : head ≡ o.next =
                ground (
                  arith,
                  get_elem?-set_self b.price_levels t o.next (rw r.levels_length in_range),
                ) in
              rw (at, starts) rest-Chain
          | inr at ↦
              let there : t ≢ u = ground arith in
              rw at (r.chain u head (sym (get_elem?-set_ne b.price_levels t u o.next there) ∙ e))
        ])

  module _ (tails' : List (Option Ptr)) (mask' : List ℕ) (first' last' : ℤ) where
    abbrev left : BitmaskOrderBook
    left = record {
      price_levels = set b.price_levels t o.next;
      price_level_tails = tails';
      mask = mask';
      best_first = first';
      best_last = last';
    }

    left-IsBook :
        length tails' ≡ n
        → ((u : ℕ) (last : Option Ptr)
            → get_elem? tails' u ≡ some last
            → last ≡ tail_of (relevel levels t ps u))
        → length mask' ≡ length b.mask
        → IsMask (update (occupied levels) t (has_order ps)) mask'
        → IsLeast (update (occupied levels) t (has_order ps)) 0 first'
        → IsGreatest (update (occupied levels) t (has_order ps)) n last'
        → IsBook n left unlinked_heap (relevel levels t ps)
    left-IsBook tails_length tail mask_length bits first last = record {
      levels_length = length-set b.price_levels t o.next ∙ r.levels_length;
      tails_length = tails_length;
      mask_length = mask_length ∙ r.mask_length;
      chain = left-Chain;
      tail = tail;
      queues = leave-IsQueues levels t p ps r.queues full;
      beyond = λ u l. ground (arith, r.beyond u l, in_range);
      bits = subst (λ f. IsMask f mask') occupied-left bits;
      first = subst (λ f. IsLeast f 0 first') occupied-left first;
      last = subst (λ f. IsGreatest f n last') occupied-left last;
    }
      where
        occupied-left : update (occupied levels) t (has_order ps) ≡ occupied (relevel levels t ps)
        occupied-left = fun_ext λ u. ground arith

  -- What the call gives: the level's rest, and a heap that differs in the link of `p` alone.
  abbrev pub Leaves : Option (Option Ptr × BitmaskOrderBook × Heap) → Type 0
  Leaves result =
      (b' : BitmaskOrderBook) × (h' : Heap) × (result ≡ some (some p, b', h'))
      × IsBook n b' h' (relevel levels t ps)
      × SameOrders h h'
      × ((q : Ptr) → q ≢ p → h' q ≡ h q)

  abbrev shortened : BitmaskOrderBook
  shortened = record b { price_levels = set b.price_levels t o.next }

  -- Orders are left behind `p`.
  shorten-Leaves :
      (q : Ptr) (qs : List Ptr) → ps ≡ q ∷ qs → Leaves (some (some p, shortened, unlinked_heap))
  shorten-Leaves q qs more = (
    shortened,
    unlinked_heap,
    refl,
    left-IsBook b.price_level_tails b.mask b.best_first b.best_last r.tails_length
        (λ u last e. r.tail u last e ∙ same_tail u) refl (subst (λ f. IsMask f b.mask) same r.bits)
        (subst (λ f. IsLeast f 0 b.best_first) same r.first)
        (subst (λ f. IsGreatest f n b.best_last) same r.last),
    relink-SameOrders h p o live none,
    write-ne h p (some (record o { next = none })),
  )
    where
      same : occupied levels ≡ update (occupied levels) t (has_order ps)
      same = fun_ext λ u. ground (arith, full, more)

      same_tail : (u : PriceTick) → tail_of (levels u) ≡ tail_of (relevel levels t ps u)
      same_tail u = elim (Bool-cases (u == t)) [
        | inl at ↦ let here : u ≡ t = ground arith in rw (at, here, full, more)
        | inr at ↦ rw at
      ]

  closed_tail :
      ps ≡ []
      → (u : PriceTick) (last : Option Ptr)
      → get_elem? (set b.price_level_tails t none) u ≡ some last
      → last ≡ tail_of (relevel levels t ps u)
  closed_tail last_one u last e = elim (Bool-cases (u == t)) [
    | inl at ↦
        let here : t ≡ u = ground arith in
        let empty : last ≡ none =
          ground
            (arith, get_elem?-set_self b.price_level_tails t none (rw r.tails_length in_range)) in
        rw (at, last_one) empty
    | inr at ↦
        let there : t ≢ u = ground arith in
        rw at (r.tail u last (sym (get_elem?-set_ne b.price_level_tails t u none there) ∙ e))
  ]

  -- `p` was the last order of its level.
  close_level-Leaves :
      ps ≡ [] → Leaves (close_level t shortened >>= λ b'. some (some p, b', unlinked_heap))
  unfolding close_level put
  close_level-Leaves last_one =
      let (old_tail, f) = get_elem?_of_lt b.price_level_tails t (rw r.tails_length in_range) in
      let inside : t / 64 < length b.mask = rw r.mask_length (omega (arith, in_range)) in
      let (w, g) = get_elem?_of_lt b.mask (t / 64) inside in
      let mask' = set b.mask (t / 64) (bit_and w (complement (2 ^ (t % 64)))) in
      let cleared : IsMask (update (occupied levels) t 0) mask' =
        clear-IsMask (occupied levels) b.mask t w r.bits g in
      let none_left : 0 ≡ has_order ps = ground arith in
      let busy : occupied levels t ≡ 1 = ground (arith, full) in
      let same_length : length mask' ≡ length b.mask = length-set b.mask (t / 64) _ in
      let (first', e1, least) =
        next_first (occupied levels) mask' t b.best_first cleared busy r.first in
      let (last', e2, greatest) =
        next_last (occupied levels) mask' t n b.best_last cleared (rw same_length inside) in_range
          busy r.last in
      (
        left (set b.price_level_tails t none) mask' first' last',
        unlinked_heap,
        (rw (f, g, e1, e2)),
        left-IsBook (set b.price_level_tails t none) mask' first' last'
            (length-set b.price_level_tails t none ∙ r.tails_length) (closed_tail last_one)
            same_length (subst (λ k. IsMask (update (occupied levels) t k) mask') none_left cleared)
            (subst (λ k. IsLeast (update (occupied levels) t k) 0 first') none_left least)
            (subst (λ k. IsGreatest (update (occupied levels) t k) n last') none_left greatest),
        relink-SameOrders h p o live none,
        write-ne h p (some (record o { next = none })),
      )

  -- The first order of a level that is not empty leaves it: the call meets no fault and returns
  -- that order, the book stays well-formed, and no other order changes.
  pub pop-Leaves : Leaves (pop_order_known_valid t b h)
  unfolding pop_order_known_valid
  pop-Leaves =
      let (head, e) = get_elem?_of_lt b.price_levels t (rw r.levels_length in_range) in
      let starts : get_elem? b.price_levels t ≡ some (some p) =
        e ∙ ap some (Chain-head_of h head (levels t) (r.chain t head e) ∙ ap head_of full) in
      rw
        (
          starts,
          live,
          put-some b.price_levels t o.next (rw r.levels_length in_range),
          set_next-some h p o live none,
        )
        (by_rest o.next ps refl refl)
    where
      by_rest :
          (next : Option Ptr) (l : List Ptr)
          → o.next ≡ next
          → ps ≡ l
          → Leaves (elim next [
            | some _ ↦ some (some p, shortened, unlinked_heap)
            | none ↦ close_level t shortened >>= λ b'. some (some p, b', unlinked_heap)
          ])
      by_rest none [] e f = close_level-Leaves f
      by_rest none (q ∷ qs) e f = absurd (ground (arith, Chain-head_of h o.next ps rest-Chain))
      by_rest (some a) [] e f = absurd (ground (arith, Chain-head_of h o.next ps rest-Chain))
      by_rest (some a) (q ∷ qs) e f = shorten-Leaves q qs f
