-- ===== src/OrderBook/Map/Strategy.antt =====
-- The map book as a strategy of the interface, and the contract that it fulfils.
use mathlib.Core.Path.{fun_ext}
use flower_exchange.Base.{
  ℕ, suc, ◌^◌, ◌<◌, ◌≡◌, ◌≢◌, refl, sym, ap, subst, ◌∙◌, arith, inl, inr, true, List, [], ◌∷◌,
  Option, none, some, ◌==◌, Bool-cases,
}
use flower_exchange.Types.{Order, Ptr, PriceTick}
use flower_exchange.OrderBook.Heap.{Heap, write}
use flower_exchange.OrderBook.Heap.Laws.{write-ne, set_next-some, relink-SameOrders, write_self}
use flower_exchange.OrderBook.Queues.{
  IsQueues, join, has-join, join-IsQueues, leave-IsQueues, has-leave,
}
use flower_exchange.OrderBook.Levels.{
  Levels, head_of, has, has_order, next_of, relevel, IsOutside, SameLinks, SameOrders, IsLowest,
  IsHighest,
}
use flower_exchange.OrderBook.Interface.{OrderBook, OrderBookLaws}
use flower_exchange.OrderBook.Map.{MapOrderBook, push_back, pop_front, find, front}
use flower_exchange.OrderBook.Map
use flower_exchange.OrderBook.Map.Levels.{
  queue, IsAscending, front-find, push_back-IsAscending, push_back-queue, first-IsLowest,
  last-IsHighest, pop_front-IsAscending, pop_front-queue,
}

abbrev pub map_strategy : OrderBook
map_strategy = record {
  Book = MapOrderBook;
  add_order_known_valid = Map.add_order_known_valid;
  peek_order_known_valid = Map.peek_order_known_valid;
  pop_order_known_valid = Map.pop_order_known_valid;
  find_first = Map.find_first;
  find_last = Map.find_last;
}

-- The entries ascend, and stand for the levels, whose orders are live.
pub record IsMapBook (b : MapOrderBook) (h : Heap) (levels : Levels) : Type 0 where
  pub ascending : IsAscending 0 b
  pub same : levels ≡ queue b
  pub queues : IsQueues levels
  pub live :
      (p : Ptr) (t : PriceTick)
      → has p (levels t) ≡ true
      → (n : Option Ptr) × (next_of (h p) ≡ some n)

relinked-live :
    (h : Heap) (p : Ptr) (o : Order) (q : Ptr) (next : Option Ptr)
    → h p ≡ some o
    → (n : Option Ptr) × (next_of (h q) ≡ some n)
    → (n : Option Ptr) × (next_of (write h p (some (record o { next = next })) q) ≡ some n)
relinked-live h p o q next live (n, e) = elim (Bool-cases (q == p)) [
  | inl f ↦
      let at : q ≡ p = ground arith in
      (
        next,
        ap (λ r. next_of (write h p (some (record o { next = next })) r)) at
            ∙ ap next_of (write_self h p (some (record o { next = next }))),
      )
  | inr f ↦ (n, ap next_of (write-ne h p (some (record o { next = next })) q (ground arith)) ∙ e)
]

module _ (t : PriceTick) (p : Ptr) (b : MapOrderBook) (h : Heap) (levels : Levels)
    (r : IsMapBook b h levels) (o : Order) (live : h p ≡ some o) where
  abbrev ended : Heap
  ended = write h p (some (record o { next = none }))

  -- An order that is in no level joins the back of the level `t`; the call meets no fault.
  pub push_back-IsMapBook :
      t < 2 ^ 63 → IsOutside p levels → IsMapBook (push_back t p b) ended (join levels t p)
  push_back-IsMapBook fits out = record {
    ascending = push_back-IsAscending 0 b t p r.ascending (omega arith) fits;
    same = ap (λ f. join f t p) r.same ∙ sym (fun_ext (λ u. push_back-queue 0 b t p u r.ascending));
    queues = join-IsQueues levels t p r.queues out;
    live = λ q u m. elim (Bool-cases (q == p)) [
      | inl e ↦
          let at : q ≡ p = ground arith in
          (
            none,
            ap (λ a. next_of (ended a)) at
                ∙ ap next_of (write_self h p (some (record o { next = none }))),
          )
      | inr e ↦
          relinked-live h p o q none live (r.live q u (ground (arith, has-join levels t p q u)))
    ];
  }

  pub pop_front-IsMapBook :
      (ps : List Ptr) → levels t ≡ p ∷ ps → IsMapBook (pop_front t b) ended (relevel levels t ps)
  pop_front-IsMapBook ps full = record {
    ascending = pop_front-IsAscending 0 b t r.ascending;
    same =
        ap (λ f. relevel f t ps) r.same
        ∙ sym (
            fun_ext
              (λ u. pop_front-queue 0 b t p ps u r.ascending (sym (ap (λ f. f t) r.same) ∙ full)));
    queues = leave-IsQueues levels t p ps r.queues full;
    live =
        λ q u m. relinked-live h p o q none live (r.live q u (has-leave levels t p ps q u full m));
  }

live_of : (o : Option Order) (n : Option Ptr) → next_of o ≡ some n → (r : Order) × (o ≡ some r)
live_of none n e = absurd (ground arith)
live_of (some r) n e = (r, refl)

pub queue-fits :
    (lo : ℕ) (b : MapOrderBook) (t : PriceTick)
    → IsAscending lo b
    → has_order (queue b t) ≡ 1
    → t < 2 ^ 63
queue-fits lo [] t a e = absurd (omega (arith, e))
queue-fits lo (l ∷ ls) t (low, fits, full, a) e = elim (Bool-cases (t == l.tick)) [
  | inl f ↦ ground arith
  | inr f ↦ queue-fits (suc l.tick) ls t a (ground arith)
]

head-find :
    (b : MapOrderBook) (h : Heap) (levels : Levels) (t : PriceTick)
    → IsMapBook b h levels
    → front (find t b) ≡ head_of (levels t)
head-find b h levels t r = front-find b t ∙ ap (λ f. head_of (f t)) (sym r.same)

-- The first order of a level of the map book leaves it: the call meets no fault and returns that
-- order, the book stays well-formed, and no other order changes.
pub map_pop-Leaves :
    (t : PriceTick) (p : Ptr) (ps : List Ptr) (b : MapOrderBook) (h : Heap) (levels : Levels)
    → IsMapBook b h levels
    → levels t ≡ p ∷ ps
    → (b' : MapOrderBook) × (h' : Heap) × (Map.pop_order_known_valid t b h ≡ some (some p, b', h'))
      × IsMapBook b' h' (relevel levels t ps)
      × SameOrders h h'
      × ((q : Ptr) → q ≢ p → h' q ≡ h q)
unfolding Map.pop_order_known_valid
map_pop-Leaves t p ps b h levels r full =
    let (n, has_next) = r.live p t (ground (arith, full)) in
    let (o, live) = live_of (h p) n has_next in
    let head : front (find t b) ≡ some p = head-find b h levels t r ∙ ap head_of full in
    (
      pop_front t b,
      write h p (some (record o { next = none })),
      rw (Map.pop_order_known_valid, head, set_next-some h p o live none),
      pop_front-IsMapBook t p b h levels r o live ps full,
      relink-SameOrders h p o live none,
      write-ne h p (some (record o { next = none })),
    )

-- A live order that is in no level joins the back of the level `t` of the map book, for a `t` below
-- 2 ^ 63: the call meets no fault, the book stays well-formed, and no order changes but in its links.
pub map_add-Joins :
    (t : PriceTick) (p : Ptr) (b : MapOrderBook) (h : Heap) (levels : Levels) (o : Order)
    → IsMapBook b h levels
    → t < 2 ^ 63
    → IsOutside p levels
    → h p ≡ some o
    → (b' : MapOrderBook) × (h' : Heap) × (Map.add_order_known_valid t (some p) b h ≡ some (b', h'))
      × IsMapBook b' h' (join levels t p)
      × SameOrders h h'
      × ((q : Ptr) → q ≢ p → IsOutside q levels → h' q ≡ h q)
unfolding Map.add_order_known_valid
map_add-Joins t p b h levels o r fits out live = (
  push_back t p b,
  write h p (some (record o { next = none })),
  rw (set_next-some h p o live none),
  push_back-IsMapBook t p b h levels r o live fits out,
  relink-SameOrders h p o live none,
  λ q ne away. write-ne h p (some (record o { next = none })) q ne,
)

pub map_pop-nil :
    (t : PriceTick) (b : MapOrderBook) (h : Heap) (levels : Levels)
    → IsMapBook b h levels
    → levels t ≡ []
    → Map.pop_order_known_valid t b h ≡ some (none, b, h)
unfolding Map.pop_order_known_valid
map_pop-nil t b h levels r empty =
    let head : front (find t b) ≡ none = head-find b h levels t r ∙ ap head_of empty in
    rw (Map.pop_order_known_valid, head)

pub map_peek-head :
    (t : PriceTick) (b : MapOrderBook) (h : Heap) (levels : Levels)
    → IsMapBook b h levels
    → Map.peek_order_known_valid t b ≡ some (head_of (levels t))
unfolding Map.peek_order_known_valid
map_peek-head t b h levels r = ap some (head-find b h levels t r)

pub IsMapBook-frame :
    (b : MapOrderBook) (h h' : Heap) (levels : Levels)
    → IsMapBook b h levels
    → SameLinks levels h h'
    → IsMapBook b h' levels
IsMapBook-frame b h h' levels r links = record {
  ascending = r.ascending;
  same = r.same;
  queues = r.queues;
  live = λ p t m. let (n, e) = r.live p t m in (n, links p t m ∙ e);
}

unfoldable pub map_laws : OrderBookLaws map_strategy
map_laws = record {
  Fits = λ t. t < 2 ^ 63;
  Rep = IsMapBook;
  Rep-add = map_add-Joins;
  Rep-pop = map_pop-Leaves;
  pop-nil = λ t b h levels r fits empty. map_pop-nil t b h levels r empty;
  peek-head_of = λ t b h levels r fits. map_peek-head t b h levels r;
  find_first-IsLowest = λ b h levels r.
      subst (λ f. IsLowest f (Map.find_first b)) (sym r.same) (first-IsLowest b r.ascending);
  find_last-IsHighest = λ b h levels r.
      subst (λ f. IsHighest f (Map.find_last b)) (sym r.same) (last-IsHighest 0 b r.ascending);
  Rep-frame = IsMapBook-frame;
  Rep-NoDup = λ b h levels r t. r.queues.nodup t;
  Rep-Fits =
      λ b h levels t r e. queue-fits 0 b t r.ascending (sym (ap (λ f. has_order (f t)) r.same) ∙ e);
}
