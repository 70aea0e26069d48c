-- ===== src/OrderBook/Queues.antt =====
-- Levels whose queues share no order and hold none twice, and the two ways in which a book
-- changes them: an order joins at the back of a level, or leaves at its front.
use flower_exchange.Base.{
  ◌≡◌, arith, inl, inr, List, [], ◌∷◌, ◌++◌, true, ◌||◌, ◌==◌, if◌then◌else◌, Bool-cases,
}
use flower_exchange.Types.{Ptr, PriceTick}
use flower_exchange.OrderBook.Levels.{
  Levels, has, NoDup, relevel, IsOutside, has-append, NoDup-snoc,
}

pub record IsQueues (levels : Levels) : Type 0 where
  pub nodup : (t : PriceTick) → NoDup (levels t)
  pub apart :
      (p : Ptr) (t u : PriceTick) → has p (levels t) ≡ true → has p (levels u) ≡ true → t ≡ u

module _ (levels : Levels) (t : PriceTick) where
  abbrev pub join : Ptr → Levels
  join p = relevel levels t (levels t ++ p ∷ [])

  pub has-join :
      (p q : Ptr) (u : PriceTick)
      → has q (join p u) ≡ (if u == t then has q (levels u) || (q == p) else has q (levels u))
  has-join p q u = elim (Bool-cases (u == t)) [
    | inl e ↦ ground (arith, has-append q (levels t) (p ∷ []))
    | inr e ↦ rw e
  ]

  pub join-IsQueues : (p : Ptr) → IsQueues levels → IsOutside p levels → IsQueues (join p)
  join-IsQueues p w out = record {
    nodup = λ u. elim (Bool-cases (u == t)) [
      | inl e ↦ rw e (NoDup-snoc p (levels t) (w.nodup t) (out t))
      | inr e ↦ rw e (w.nodup u)
    ];
    apart =
        λ q u v m k. ground (arith, has-join p q u, has-join p q v, w.apart q u v, out u, out v);
  }

  pub leave-IsQueues :
      (p : Ptr) (ps : List Ptr)
      → IsQueues levels
      → levels t ≡ p ∷ ps
      → IsQueues (relevel levels t ps)
  leave-IsQueues p ps w e = record {
    nodup = λ u. ground (arith, w.nodup u);
    apart = λ q u v m k. ground (arith, w.apart q u v);
  }

  pub has-leave :
      (p : Ptr) (ps : List Ptr) (q : Ptr) (u : PriceTick)
      → levels t ≡ p ∷ ps
      → has q (relevel levels t ps u) ≡ true
      → has q (levels u) ≡ true
  has-leave p ps q u e m = ground arith
