-- ===== src/OrderBook/Heap/Laws.antt =====
-- One write to the heap, read back.
use flower_exchange.Base.{
  ℕ, ◌≡◌, ◌≢◌, sym, ap, ◌∙◌, arith, inl, inr, Option, some, ◌==◌, Bool-cases,
}
use flower_exchange.Types.{Ptr, Order}
use flower_exchange.OrderBook.Heap.{Heap, write, set_next, set_quantity}
use flower_exchange.OrderBook.Levels.{unlinked, next_of, SameOrders}

pub write_self : (h : Heap) (p : Ptr) (o : Option Order) → write h p o p ≡ o
unfolding write
write_self h p o = ground arith

pub write-ne : (h : Heap) (p : Ptr) (o : Option Order) (q : Ptr) → q ≢ p → write h p o q ≡ h q
unfolding write
write-ne h p o q ne = ground arith

module _ (h : Heap) (p : Ptr) (o : Order) (live : h p ≡ some o) where
  pub set_next-some :
      (next : Option Ptr) → set_next p next h ≡ some (write h p (some (record o { next = next })))
  unfolding set_next
  set_next-some next = rw live

  pub relink-SameOrders :
      (next : Option Ptr) → SameOrders h (write h p (some (record o { next = next })))
  relink-SameOrders next q = elim (Bool-cases (q == p)) [
    | inl e ↦
        let at : q ≡ p = ground arith in
        rw at
          (ap unlinked (write_self h p (some (record o { next = next }))) ∙ sym (ap unlinked live))
    | inr e ↦ ap unlinked (write-ne h p (some (record o { next = next })) q (ground arith))
  ]

  pub set_quantity-some :
      (quantity : ℕ)
      → set_quantity p quantity h ≡ some (write h p (some (record o { quantity = quantity })))
  unfolding set_quantity
  set_quantity-some quantity = rw live

  pub requantify-next_of :
      (quantity : ℕ) (q : Ptr)
      → next_of (write h p (some (record o { quantity = quantity })) q) ≡ next_of (h q)
  requantify-next_of quantity q = elim (Bool-cases (q == p)) [
    | inl e ↦
        let at : q ≡ p = ground arith in
        rw at (
          ap next_of (write_self h p (some (record o { quantity = quantity })))
          ∙ sym (ap next_of live))
    | inr e ↦ ap next_of (write-ne h p (some (record o { quantity = quantity })) q (ground arith))
  ]
