-- ===== src/Matching/After.antt =====
-- The reference state after an order: what the two changed markets hold.
use flower_exchange.Base.{
  ℕ, ◌-◌, ◌≤◌, ◌≡◌, refl, subst, arith, inl, inr, Bool, false, not, ◌||◌, List, [], ◌∷◌, ◌==◌, leb,
  Bool-cases,
}
use flower_exchange.Types.{Ptr, PriceTick, Side, buy, sell, InstrumentType, instrument_code}
use flower_exchange.OrderBook.Levels.{has}
use flower_exchange.Matching.{opposite}
use flower_exchange.Matching.Reference.{Entry, fill, orders_of}
use flower_exchange.Matching.Spread.{IsUncrossed, IsApart}
use flower_exchange.Matching.Exchange.{World, same_market, set_market, eq_of_code}

pub fill-left : (takes : PriceTick → Bool) (q : ℕ) (xs : List Entry) → (fill takes q xs).left ≤ q
unfolding fill
fill-left takes q [] = omega arith
fill-left takes q (x ∷ xs) =
    let rest = fill-left takes (q - x.quantity) xs in
    elim (Bool-cases (q == 0 || not (takes x.price))) [
      | inl e ↦ rw e (omega arith)
      | inr e ↦ elim (Bool-cases (leb x.quantity q)) [
        | inl f ↦ rw (e, f) (omega (arith, rest))
        | inr f ↦ rw (e, f) (omega arith)
      ]
    ]

-- Matching brings no order in.
pub fill-has :
    (takes : PriceTick → Bool) (q : ℕ) (xs : List Entry) (p : Ptr)
    → has p (orders_of xs) ≡ false
    → has p (orders_of (fill takes q xs).book) ≡ false
unfolding fill
fill-has takes q [] p out = refl
fill-has takes q (x ∷ xs) p out =
    let rest = fill-has takes (q - x.quantity) xs p (ground arith) in
    elim (Bool-cases (q == 0 || not (takes x.price))) [
      | inl e ↦ rw e out
      | inr e ↦ elim (Bool-cases (leb x.quantity q)) [
        | inl f ↦ rw (e, f) rest
        | inr f ↦ rw (e, f) out
      ]
    ]

pub same_market-opposite :
    (s : Side) (k k' : InstrumentType) → same_market (opposite s) k s k' ≡ false
same_market-opposite buy k k' = refl
same_market-opposite sell k k' = refl

pub same_market-sym :
    (s s' : Side) (k k' : InstrumentType)
    → same_market s k s' k' ≡ false
    → same_market s' k' s k ≡ false
same_market-sym buy buy k k' e = ground arith
same_market-sym sell sell k k' e = ground arith
same_market-sym buy sell k k' e = refl
same_market-sym sell buy k k' e = refl

-- Every market is uncrossed after both sides of one are given anew, or the opposite side alone.
pub IsUncrossed-both :
    (w : World) (s : Side) (k k' : InstrumentType) (own opp : List Entry)
    → ((j : InstrumentType) → IsUncrossed (w buy j) (w sell j))
    → IsApart s own opp
    → let after = set_market (set_market w (opposite s) k opp) s k own in
      IsUncrossed (after buy k') (after sell k')
IsUncrossed-both w buy k k' own opp u a =
    elim (Bool-cases (instrument_code k == instrument_code k')) [
      | inl e ↦ rw e a
      | inr e ↦ rw e (u k')
    ]
IsUncrossed-both w sell k k' own opp u a =
    elim (Bool-cases (instrument_code k == instrument_code k')) [
      | inl e ↦ rw e a
      | inr e ↦ rw e (u k')
    ]

pub IsUncrossed-one :
    (w : World) (s : Side) (k k' : InstrumentType) (opp : List Entry)
    → ((j : InstrumentType) → IsUncrossed (w buy j) (w sell j))
    → (IsApart s (w s k) (w (opposite s) k) → IsApart s (w s k) opp)
    → let after = set_market w (opposite s) k opp in IsUncrossed (after buy k') (after sell k')
IsUncrossed-one w buy k k' opp u a = elim (Bool-cases (instrument_code k == instrument_code k')) [
  | inl e ↦ rw e (subst (λ z. IsUncrossed (w buy z) opp) (eq_of_code k k' (ground arith)) (a (u k)))
  | inr e ↦ rw e (u k')
]
IsUncrossed-one w sell k k' opp u a = elim (Bool-cases (instrument_code k == instrument_code k')) [
  | inl e ↦
      rw e (subst (λ z. IsUncrossed opp (w sell z)) (eq_of_code k k' (ground arith)) (a (u k)))
  | inr e ↦ rw e (u k')
]
