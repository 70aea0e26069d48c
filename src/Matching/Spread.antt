-- ===== src/Matching/Spread.antt =====
-- No bid reaches an offer: matching before adding keeps the two sides of a market apart.
use flower_exchange.Base.{
  ℕ, ◌-◌, ◌<◌, ◌≡◌, arith, inl, inr, Bool, false, not, ◌||◌, List, [], ◌∷◌, leb, ◌==◌, Bool-cases,
}
use flower_exchange.Types.{PriceTick, Side, buy, sell}
use flower_exchange.Matching.{crosses, opposite}
use flower_exchange.Matching.Reference.{Entry, fill, insert, better, NoBetter, IsSorted}

abbrev pub AllPrices : (PriceTick → Type 0) → List Entry → Type 0
AllPrices P [] = Unit {0}
AllPrices P (x ∷ xs) = P x.price × AllPrices P xs

-- Every bid is below every offer.
abbrev pub IsUncrossed : List Entry → List Entry → Type 0
IsUncrossed bids offers = AllPrices (λ b. AllPrices (λ a. b < a) offers) bids

module _ (P : PriceTick → Type 0) where
  pub AllPrices-map :
      (Q : PriceTick → Type 0) (xs : List Entry)
      → ((t : PriceTick) → P t → Q t)
      → AllPrices P xs
      → AllPrices Q xs
  AllPrices-map Q [] f a = tt
  AllPrices-map Q (x ∷ xs) f (p, a) = (f x.price p, AllPrices-map Q xs f a)

  pub AllPrices-fill :
      (takes : PriceTick → Bool) (q : ℕ) (xs : List Entry)
      → AllPrices P xs
      → AllPrices P (fill takes q xs).book
  unfolding fill
  AllPrices-fill takes q [] a = tt
  AllPrices-fill takes q (x ∷ xs) (p, a) =
      let rest = AllPrices-fill takes (q - x.quantity) xs a in
      elim (Bool-cases (q == 0 || not (takes x.price))) [
        | inl e ↦ rw e (p, a)
        | inr e ↦ elim (Bool-cases (leb x.quantity q)) [
          | inl f ↦ rw (e, f) rest
          | inr f ↦ rw (e, f) (p, a)
        ]
      ]

  pub AllPrices-insert :
      (side : Side) (e : Entry) (xs : List Entry)
      → P e.price
      → AllPrices P xs
      → AllPrices P (insert side e xs)
  unfolding insert
  AllPrices-insert side e [] p a = (p, tt)
  AllPrices-insert side e (x ∷ xs) p (h, a) =
      let rest = AllPrices-insert side e xs p a in
      elim (Bool-cases (better side e.price x.price)) [
        | inl f ↦ rw f (p, (h, a))
        | inr f ↦ rw f (h, rest)
      ]

-- What an incoming order refuses at the front of the list it refuses everywhere.
refuses-behind :
    (side : Side) (price t : PriceTick) (xs : List Entry)
    → crosses side t price ≡ false
    → NoBetter (opposite side) t xs
    → AllPrices (λ u. crosses side u price ≡ false) xs
refuses-behind side price t [] r n = tt
refuses-behind buy price t (x ∷ xs) r (w, n) = (ground arith, refuses-behind buy price t xs r n)
refuses-behind sell price t (x ∷ xs) r (w, n) = (ground arith, refuses-behind sell price t xs r n)

-- If the order is not filled, nothing that is left would have taken it.
pub fill-refuses :
    (side : Side) (price : PriceTick) (q : ℕ) (xs : List Entry)
    → IsSorted (opposite side) xs
    → 0 < (fill (λ t. crosses side t price) q xs).left
    → AllPrices (λ u. crosses side u price ≡ false) (fill (λ t. crosses side t price) q xs).book
unfolding fill
fill-refuses side price q [] s = λ h. tt
fill-refuses side price q (x ∷ xs) (n, s) =
    let rest = fill-refuses side price (q - x.quantity) xs s in
    elim (Bool-cases (q == 0)) [
      | inl e ↦ rw e λ h. absurd (ground arith)
      | inr e ↦ elim (Bool-cases (crosses side x.price price)) [
        | inl c ↦ elim (Bool-cases (leb x.quantity q)) [
          | inl f ↦ rw (e, c, f) rest
          | inr f ↦ rw (e, c, f) λ h. absurd (omega arith)
        ]
        | inr c ↦ rw (e, c) λ h. (c, refuses-behind side price x.price xs c n)
      ]
    ]

-- The same, seen from the side of an incoming order.
abbrev pub IsApart : Side → List Entry → List Entry → Type 0
IsApart buy own opp = IsUncrossed own opp
IsApart sell own opp = IsUncrossed opp own

AllPrices-zip :
    (P Q R : PriceTick → Type 0) (xs : List Entry)
    → ((t : PriceTick) → P t → Q t → R t)
    → AllPrices P xs
    → AllPrices Q xs
    → AllPrices R xs
AllPrices-zip P Q R [] f a b = tt
AllPrices-zip P Q R (x ∷ xs) f (p, a) (q, b) = (f x.price p q, AllPrices-zip P Q R xs f a b)

-- Matching takes orders away, and changes no price.
pub fill-IsApart :
    (side : Side) (takes : PriceTick → Bool) (q : ℕ) (own opp : List Entry)
    → IsApart side own opp
    → IsApart side own (fill takes q opp).book
fill-IsApart buy takes q own opp a =
    AllPrices-map (λ b. AllPrices (λ t. b < t) opp)
      (λ b. AllPrices (λ t. b < t) (fill takes q opp).book) own
      (λ b. AllPrices-fill (λ t. b < t) takes q opp) a
fill-IsApart sell takes q own opp a = AllPrices-fill (λ b. AllPrices (λ t. b < t) own) takes q opp a

-- What is left of an order can rest in its own side.
pub insert-IsApart :
    (side : Side) (q : ℕ) (e : Entry) (own opp : List Entry)
    → IsSorted (opposite side) opp
    → 0 < (fill (λ t. crosses side t e.price) q opp).left
    → IsApart side own opp
    → IsApart side (insert side e own) (fill (λ t. crosses side t e.price) q opp).book
insert-IsApart buy q e own opp s left a =
    let book = (fill (λ t. crosses buy t e.price) q opp).book in
    AllPrices-insert (λ b. AllPrices (λ t. b < t) book) buy e own
      (AllPrices-map (λ u. crosses buy u e.price ≡ false) (λ t. e.price < t) book
        (λ t r. ground arith) (fill-refuses buy e.price q opp s left))
      (fill-IsApart buy (λ t. crosses buy t e.price) q own opp a)
insert-IsApart sell q e own opp s left a =
    let book = (fill (λ t. crosses sell t e.price) q opp).book in
    AllPrices-zip (λ b. AllPrices (λ t. b < t) own) (λ u. crosses sell u e.price ≡ false)
      (λ b. AllPrices (λ t. b < t) (insert sell e own)) book
      (λ b r refused. AllPrices-insert (λ t. b < t) sell e own (ground arith) r)
      (fill-IsApart sell (λ t. crosses sell t e.price) q own opp a)
      (fill-refuses sell e.price q opp s left)
