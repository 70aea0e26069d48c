-- ===== src/OrderBook/Bitmask/Chain.antt =====
-- A price level as a linked list in the heap.
use flower_exchange.Base.{
  ◌≡◌, ◌≢◌, refl, ◌∙◌, arith, List, [], ◌∷◌, ◌++◌, Option, none, some, true, ◌==◌, Bool-cases, inl,
  inr,
}
use flower_exchange.Types.{Ptr, Order}
use flower_exchange.OrderBook.Heap.{Heap}
use flower_exchange.OrderBook.Levels.{has, NoDup, next_of}

-- From `head` the `next` pointers lead through the orders listed, to null.
abbrev pub Chain : Heap → Option Ptr → List Ptr → Type 0
Chain h head [] = head ≡ none
Chain h head (p ∷ ps) = (n : Option Ptr) × (head ≡ some p) × (next_of (h p) ≡ some n) × Chain h n ps

abbrev pub tail_of : List Ptr → Option Ptr
tail_of [] = none
tail_of (p ∷ []) = some p
tail_of (p ∷ q ∷ ps) = tail_of (q ∷ ps)

pub has-tail_of : (p q : Ptr) (ps : List Ptr) → tail_of (p ∷ ps) ≡ some q → has q (p ∷ ps) ≡ true
has-tail_of p q [] e = ground arith
has-tail_of p q (r ∷ ps) e = ground (arith, has-tail_of r q ps e)

pub tail_of-cons : (p : Ptr) (ps : List Ptr) → (q : Ptr) × (tail_of (p ∷ ps) ≡ some q)
tail_of-cons p [] = (p, refl)
tail_of-cons p (r ∷ ps) = tail_of-cons r ps

pub tail_of-snoc : (ps : List Ptr) (p : Ptr) → tail_of (ps ++ p ∷ []) ≡ some p
tail_of-snoc [] p = refl
tail_of-snoc (q ∷ []) p = refl
tail_of-snoc (q ∷ r ∷ ps) p = tail_of-snoc (r ∷ ps) p

pub Chain-frame :
    (h h' : Heap) (head : Option Ptr) (ps : List Ptr)
    → ((p : Ptr) → has p ps ≡ true → next_of (h' p) ≡ next_of (h p))
    → Chain h head ps
    → Chain h' head ps
Chain-frame h h' head [] same e = e
Chain-frame h h' head (p ∷ ps) same (n, e, link, rest) =
    (n, e, same p (ground arith) ∙ link, Chain-frame h h' n ps (λ q m. same q (ground arith)) rest)

-- The last order's link now leads to `p`, which ends the list.
pub Chain-snoc :
    (h h' : Heap) (head : Option Ptr) (r : Ptr) (ps : List Ptr) (p q : Ptr)
    → tail_of (r ∷ ps) ≡ some q
    → NoDup (r ∷ ps)
    → next_of (h' q) ≡ some (some p)
    → next_of (h' p) ≡ some none
    → ((a : Ptr) → a ≢ q → has a (r ∷ ps) ≡ true → next_of (h' a) ≡ next_of (h a))
    → Chain h head (r ∷ ps)
    → Chain h' head (r ∷ ps ++ p ∷ [])
Chain-snoc h h' head r [] p q e nodup eq ep same (n, start, link, end) =
    (some p, start, ground arith, (none, refl, ep, refl))
Chain-snoc h h' head r (s ∷ ps) p q e (new, nodup) eq ep same (n, start, link, rest) = (
  n,
  start,
  same r (ground (arith, has-tail_of s q ps e)) (ground arith) ∙ link,
  Chain-snoc h h' n s ps p q e nodup eq ep (λ a ne m. same a ne (ground arith)) rest,
)

-- Each order of a chain is live.
pub Chain-live :
    (h : Heap) (head : Option Ptr) (ps : List Ptr) (p : Ptr)
    → Chain h head ps
    → has p ps ≡ true
    → (o : Order) × (h p ≡ some o)
Chain-live h head [] p c m = absurd (cc)
Chain-live h head (q ∷ ps) p (n, e, link, rest) m = elim (Bool-cases (p == q)) [
  | inl here ↦ let at : p ≡ q = ground arith in rw at (live (h q) n link)
  | inr there ↦ Chain-live h n ps p rest (ground arith)
]
  where
    live : (c : Option Order) (n : Option Ptr) → next_of c ≡ some n → (o : Order) × (c ≡ some o)
    live none n e = absurd (cc)
    live (some o) n e = (o, refl)
