-- ===== src/OrderBook/Bitmask/Add.antt =====
-- `add_order_known_valid`: the order joins the back of its level, with no fault.
use mathlib.Core.Path.{fun_ext}
use flower_exchange.Base.{
  ℕ, ◌/◌, ◌%◌, ◌^◌, ◌<◌, ◌≡◌, ◌≢◌, refl, sym, ap, subst, ◌∙◌, arith, inl, inr, List, [], ◌∷◌, ◌++◌,
  Option, none, some, true, ◌==◌, ℤ, length, get_elem?, set, Bool-cases, get_elem?_of_lt,
  get_elem?-set_self, get_elem?-set_ne, length-set, bit_or, ◌>>=◌,
}
use flower_exchange.Types.{Ptr, PriceTick, Order}
use flower_exchange.OrderBook.Heap.{Heap, write}
use flower_exchange.OrderBook.Heap.Laws.{write_self, write-ne, set_next-some, relink-SameOrders}
use flower_exchange.OrderBook.Queues.{join, join-IsQueues}
use flower_exchange.OrderBook.Levels.{
  Levels, has, has_order-snoc, head_of, NoDup, IsOutside, SameOrders, IsLeast, IsGreatest, next_of,
}
use flower_exchange.OrderBook.Bitmask.{
  BitmaskOrderBook, put, open_level, extend_level, add_order_known_valid,
}
use flower_exchange.OrderBook.Bitmask.Chain.{
  Chain, Chain-frame, tail_of, Chain-snoc, tail_of-snoc, tail_of-cons, has-tail_of, Chain-live,
}
use flower_exchange.OrderBook.Bitmask.Marks.{IsMask, update, set-IsMask}
use flower_exchange.OrderBook.Bitmask.Rep.{IsBook, occupied, Chain-head_of}
use flower_exchange.OrderBook.Bitmask.Ends.{
  min_tick, max_tick, min_tick-IsLeast, max_tick-IsGreatest,
}

module _ (n : ℕ) (b : BitmaskOrderBook) (h : Heap) (levels : Levels) (t : PriceTick) (p : Ptr)
    (o : Order) (r : IsBook n b h levels) (lt : t < n) (out : IsOutside p levels)
    (live : h p ≡ some o) where
  -- The heap once `order->next = nullptr` is done.
  abbrev ended : Heap
  ended = write h p (some (record o { next = none }))

  ended_self : ended p ≡ some (record o { next = none })
  ended_self = write_self h p (some (record o { next = none }))

  ended-ne : (q : Ptr) → q ≢ p → ended q ≡ h q
  ended-ne = write-ne h p (some (record o { next = none }))

  ended-SameOrders : SameOrders h ended
  ended-SameOrders = relink-SameOrders h p o live none

  ended-SameLinks :
      (q : Ptr) (u : PriceTick) → has q (levels u) ≡ true → next_of (ended q) ≡ next_of (h q)
  ended-SameLinks q u m = ap next_of (ended-ne q (ground (arith, out u)))

  -- A book with new tails, and perhaps a new head, at the level.
  module _ (levels' : List (Option Ptr)) (mask' : List ℕ) (first' last' : ℤ) where
    abbrev joined : BitmaskOrderBook
    joined = record {
      price_levels = levels';
      price_level_tails = set b.price_level_tails t (some p);
      mask = mask';
      best_first = first';
      best_last = last';
    }

    joined-IsBook :
        (h' : Heap)
        → length levels' ≡ n
        → length mask' ≡ length b.mask
        → ((u : ℕ) (head : Option Ptr)
            → get_elem? levels' u ≡ some head
            → Chain h' head (join levels t p u))
        → IsMask (update (occupied levels) t 1) mask'
        → IsLeast (update (occupied levels) t 1) 0 first'
        → IsGreatest (update (occupied levels) t 1) n last'
        → IsBook n joined h' (join levels t p)
    joined-IsBook h' levels_length mask_length chain bits first last = record {
      levels_length = levels_length;
      tails_length = length-set b.price_level_tails t (some p) ∙ r.tails_length;
      mask_length = mask_length ∙ r.mask_length;
      chain = chain;
      tail = λ u last e. elim (Bool-cases (u == t)) [
        | inl at ↦ rw at (tail_at u last (ground arith) e)
        | inr at ↦ rw at (
            r.tail u last
              (sym (get_elem?-set_ne b.price_level_tails t u (some p) (ground arith)) ∙ e))
      ];
      queues = join-IsQueues levels t p r.queues out;
      beyond = λ u l. ground (arith, r.beyond u l);
      bits = subst (λ f. IsMask f mask') occupied-join bits;
      first = subst (λ f. IsLeast f 0 first') occupied-join first;
      last = subst (λ f. IsGreatest f n last') occupied-join last;
    }
      where
        occupied-join : update (occupied levels) t 1 ≡ occupied (join levels t p)
        occupied-join = fun_ext λ u. ground (arith, has_order-snoc (levels t) p)

        tail_at :
            (u : ℕ) (last : Option Ptr)
            → u ≡ t
            → get_elem? (set b.price_level_tails t (some p)) u ≡ some last
            → last ≡ tail_of (levels t ++ p ∷ [])
        tail_at u last at e = ground (
          arith,
          tail_of-snoc (levels t) p,
          get_elem?-set_self b.price_level_tails t (some p) (rw r.tails_length lt),
        )

  -- What the call gives: a book for the longer level, and a heap that differs in links alone.
  abbrev pub Joins : Option (BitmaskOrderBook × Heap) → Type 0
  Joins result =
      (b' : BitmaskOrderBook) × (h' : Heap) × (result ≡ some (b', h'))
      × IsBook n b' h' (join levels t p)
      × SameOrders h h'
      × ((q : Ptr) → q ≢ p → IsOutside q levels → h' q ≡ h q)

  opened-Chain :
      (u : PriceTick) (head : Option Ptr)
      → levels t ≡ []
      → get_elem? (set b.price_levels t (some p)) u ≡ some head
      → Chain ended head (join levels t p u)
  opened-Chain u head empty e = elim (Bool-cases (u == t)) [
    | inl at ↦
        let here : t ≡ u = ground arith in
        let starts : head ≡ some p =
          ground (arith, get_elem?-set_self b.price_levels t (some p) (rw r.levels_length lt)) in
        rw (at, empty) (none, starts, ap next_of ended_self, refl)
    | inr at ↦
        let there : t ≢ u = ground arith in
        rw at (
          Chain-frame h ended head (levels u) (λ q m. ended-SameLinks q u m)
            (r.chain u head (sym (get_elem?-set_ne b.price_levels t u (some p) there) ∙ e)))
  ]

  open_level-Joins : levels t ≡ [] → Joins (open_level t p b >>= λ b'. some (b', ended))
  unfolding open_level put
  open_level-Joins empty =
      let at_level : t < length b.price_levels = rw r.levels_length lt in
      let at_tail : t < length b.price_level_tails = rw r.tails_length lt in
      let at_word : t / 64 < length b.mask = rw r.mask_length (omega arith) in
      let (old_head, e) = get_elem?_of_lt b.price_levels t at_level in
      let (old_tail, f) = get_elem?_of_lt b.price_level_tails t at_tail in
      let (w, g) = get_elem?_of_lt b.mask (t / 64) at_word in
      let mask' = set b.mask (t / 64) (bit_or w (2 ^ (t % 64))) in
      (
        joined (set b.price_levels t (some p)) mask' (min_tick t b.best_first)
            (max_tick t b.best_last),
        ended,
        rw (e, f, g),
        joined-IsBook (set b.price_levels t (some p)) mask' (min_tick t b.best_first)
            (max_tick t b.best_last) ended (length-set b.price_levels t (some p) ∙ r.levels_length)
            (length-set b.mask (t / 64) (bit_or w (2 ^ (t % 64))))
            (λ u head. opened-Chain u head empty) (set-IsMask (occupied levels) b.mask t w r.bits g)
            (min_tick-IsLeast (occupied levels) t b.best_first r.first)
            (max_tick-IsGreatest (occupied levels) t n b.best_last lt r.last),
        ended-SameOrders,
        λ q ne _. ended-ne q ne,
      )

  -- The level holds orders, and `z` is its last.
  module _ (a z : Ptr) (ps : List Ptr) (oz : Order) (full : levels t ≡ a ∷ ps)
      (last_z : tail_of (a ∷ ps) ≡ some z) (live_z : ended z ≡ some oz) where
    abbrev linked : Heap
    linked = write ended z (some (record oz { next = some p }))

    z-has : has z (levels t) ≡ true
    z-has = rw full (has-tail_of a z ps last_z)

    z-ne : z ≢ p
    z-ne = ground (arith, out t, z-has)

    linked_self : linked z ≡ some (record oz { next = some p })
    linked_self = write_self ended z (some (record oz { next = some p }))

    linked-ne : (q : Ptr) → q ≢ z → linked q ≡ ended q
    linked-ne = write-ne ended z (some (record oz { next = some p }))

    linked-SameOrders : SameOrders h linked
    linked-SameOrders q = relink-SameOrders ended z oz live_z (some p) q ∙ ended-SameOrders q

    linked-Chain :
        (u : PriceTick) (head : Option Ptr)
        → get_elem? b.price_levels u ≡ some head
        → Chain linked head (join levels t p u)
    linked-Chain u head e = elim (Bool-cases (u == t)) [
      | inl at ↦
          let here : t ≡ u = ground arith in
          let before : Chain h head (a ∷ ps) =
            subst (Chain h head) full
              (subst (λ v. Chain h head (levels v)) (sym here) (r.chain u head e)) in
          let nodup : NoDup (a ∷ ps) = subst NoDup full (r.queues.nodup t) in
          rw (at, full)
            (Chain-snoc h linked head a ps p z last_z nodup (ap next_of linked_self)
              (ap next_of (linked-ne p (ground (arith, z-ne))) ∙ ap next_of ended_self)
              (λ q ne m. ap next_of (linked-ne q ne) ∙ ended-SameLinks q t (rw full m)) before)
      | inr at ↦ rw at (
          Chain-frame h linked head (levels u)
            (λ q m.
              ap next_of (linked-ne q (ground (arith, r.queues.apart q t u, z-has)))
              ∙ ended-SameLinks q u m)
            (r.chain u head e))
    ]

    linked-IsBook :
        IsBook n (joined b.price_levels b.mask b.best_first b.best_last) linked (join levels t p)
    linked-IsBook =
        joined-IsBook b.price_levels b.mask b.best_first b.best_last linked r.levels_length refl
          linked-Chain (subst (λ f. IsMask f b.mask) same r.bits)
          (subst (λ f. IsLeast f 0 b.best_first) same r.first)
          (subst (λ f. IsGreatest f n b.best_last) same r.last)
      where
        same : occupied levels ≡ update (occupied levels) t 1
        same = fun_ext λ u. ground (arith, full)

  extend_level-Joins :
      (a : Ptr) (ps : List Ptr) → levels t ≡ a ∷ ps → Joins (extend_level t p b ended)
  unfolding extend_level put
  extend_level-Joins a ps full =
      let (head, e) = get_elem?_of_lt b.price_levels t (rw r.levels_length lt) in
      let (old_tail, f) = get_elem?_of_lt b.price_level_tails t (rw r.tails_length lt) in
      let (z, last_z) = tail_of-cons a ps in
      let is_z : get_elem? b.price_level_tails t ≡ some (some z) =
        f ∙ ap some (r.tail t old_tail f ∙ ap tail_of full ∙ last_z) in
      let before : Chain h head (a ∷ ps) = subst (Chain h head) full (r.chain t head e) in
      let (oz, live_z) =
        Chain-live ended head (a ∷ ps) z
          (Chain-frame h ended head (a ∷ ps) (λ q m. ended-SameLinks q t (rw full m)) before)
          (has-tail_of a z ps last_z) in
      (
        joined b.price_levels b.mask b.best_first b.best_last,
        linked a z ps oz full last_z live_z,
        (rw (is_z, set_next-some ended z oz live_z (some p))),
        linked-IsBook a z ps oz full last_z live_z,
        linked-SameOrders a z ps oz full last_z live_z,
        λ q ne apart.
            linked-ne a z ps oz full last_z live_z q
              (ground (arith, apart t, z-has a z ps oz full last_z live_z))
            ∙ ended-ne q ne,
      )

  -- A live order that is in no level joins the back of the level `t`, a tick of the book: the call
  -- meets no fault, the book stays well-formed, and no order changes but in its links.
  pub add-Joins : Joins (add_order_known_valid t (some p) b h)
  unfolding add_order_known_valid
  add-Joins =
      let (head, e) = get_elem?_of_lt b.price_levels t (rw r.levels_length lt) in
      let starts : get_elem? b.price_levels t ≡ some (head_of (levels t)) =
        e ∙ ap some (Chain-head_of h head (levels t) (r.chain t head e)) in
      rw (set_next-some h p o live none, starts) (by_level (levels t) refl)
    where
      by_level :
          (l : List Ptr)
          → levels t ≡ l
          → Joins (elim (head_of l) [
            | none ↦ open_level t p b >>= λ b'. some (b', ended)
            | some _ ↦ extend_level t p b ended
          ])
      by_level [] e = open_level-Joins e
      by_level (a ∷ ps) e = extend_level-Joins a ps e
