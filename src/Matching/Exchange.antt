-- ===== src/Matching/Exchange.antt =====
-- The exchange: two sides for each instrument, and the pool that holds exactly their orders.
use flower_exchange.Base.{
  ℕ, ◌<◌, ◌≡◌, refl, sym, ap, subst, ◌∙◌, arith, inl, inr, Bool, true, false, ◌&&◌, List, [], ◌∷◌,
  Option, some, ◌==◌, ltb, if◌then◌else◌, Bool-cases, get_elem?, get_elem?-set_self,
  get_elem?-set_ne, lt_of_get_elem?,
}
use flower_exchange.Types.{
  Ptr, Side, buy, sell, InstrumentType, rose, lavender, lotus, tulip, orchid, count, Order,
  instrument_code,
}
use flower_exchange.OrderBook.Heap.{Heap}
use flower_exchange.OrderBook.Levels.{has}
use flower_exchange.OrderBook.Interface.{OrderBook, OrderBookLaws}
use flower_exchange.Matching.{Engine, books_of, with_book}
use flower_exchange.Matching.Reference.{Entry, orders_of}
use flower_exchange.Matching.Market.{IsMarket, IsMarket-frame, AllResting, resting_order}

-- The reference state: a list in price-time priority for each side of each instrument.
abbrev pub World : Type 0
World = Side → InstrumentType → List Entry

abbrev pub same_side : Side → Side → Bool
same_side buy buy = true
same_side sell sell = true
same_side _ _ = false

abbrev pub same_market : Side → InstrumentType → Side → InstrumentType → Bool
same_market s k s' k' = same_side s s' && instrument_code k == instrument_code k'

abbrev pub set_market : World → Side → InstrumentType → List Entry → World
set_market w s k xs s' k' = if same_market s k s' k' then xs else w s' k'

pub eq_of_same_side : (s s' : Side) → same_side s s' ≡ true → s ≡ s'
eq_of_same_side buy buy e = refl
eq_of_same_side sell sell e = refl
eq_of_same_side buy sell e = absurd (ground arith)
eq_of_same_side sell buy e = absurd (ground arith)

pub eq_of_code : (k k' : InstrumentType) → instrument_code k ≡ instrument_code k' → k ≡ k'
eq_of_code rose k' e = ground arith
eq_of_code lavender k' e = ground arith
eq_of_code lotus k' e = ground arith
eq_of_code tulip k' e = ground arith
eq_of_code orchid k' e = ground arith
eq_of_code count k' e = ground arith

listed_of_code : (k : InstrumentType) → (instrument_code k == 5) ≡ false → instrument_code k < 5
listed_of_code k e = elim (Bool-cases (ltb (instrument_code k) 5)) [
  | inl l ↦ ground arith
  | inr l ↦ absurd (ground arith)
]

pub same_side_refl : (s : Side) → same_side s s ≡ true
same_side_refl buy = refl
same_side_refl sell = refl

pub eq_of_same_market :
    (s s' : Side) (k k' : InstrumentType) → same_market s k s' k' ≡ true → (s ≡ s') × (k ≡ k')
eq_of_same_market s s' k k' e =
    (eq_of_same_side s s' (ground arith), eq_of_code k k' (ground arith))

-- An order of a market, found.
resting_entry :
    (h : Heap) (s : Side) (k : InstrumentType) (xs : List Entry) (p : Ptr)
    → AllResting h s k xs
    → has p (orders_of xs) ≡ true
    → (x : Entry) × (next : Option Ptr) × (h p ≡ some (resting_order s k x next))
resting_entry h s k [] p a e = absurd (cc)
resting_entry h s k (x ∷ xs) p (r, a) e = elim (Bool-cases (p == x.order)) [
  | inl here ↦ let at : p ≡ x.order = ground arith in (x, r.next, ap h at ∙ r.live)
  | inr there ↦ resting_entry h s k xs p a (ground arith)
]

-- Where an order is, its own fields tell.
pub resting_at :
    (h : Heap) (s : Side) (k : InstrumentType) (xs : List Entry) (p : Ptr) (o : Order)
    → AllResting h s k xs
    → has p (orders_of xs) ≡ true
    → h p ≡ some o
    → (o.side ≡ s) × (o.instrument ≡ k)
resting_at h s k xs p o a e live =
    let (x, next, found) = resting_entry h s k xs p a e in (ground arith, ground arith)

module _ {strategy : OrderBook} (laws : OrderBookLaws strategy) where
  open strategy use {Book}

  pub record HasMarkets (e : Engine strategy) (w : World) : Type 0 where
    pub market :
        (s : Side) (k : InstrumentType)
        → instrument_code k < 5
        → (b : Book) × (get_elem? (books_of strategy s e) (instrument_code k) ≡ some b)
          × IsMarket laws s k b e.heap (w s k)
    pub absent : (s : Side) → w s count ≡ []

  -- An order of a market is live.
  pub market-live :
      (e : Engine strategy) (w : World) (s : Side) (k : InstrumentType) (p : Ptr)
      → HasMarkets e w
      → has p (orders_of (w s k)) ≡ true
      → (o : Order) × (e.heap p ≡ some o)
  market-live e w s k p m at = elim (Bool-cases (instrument_code k == 5)) [
    | inl last ↦
        let it : count ≡ k = ground arith in
        let none_there : has p (orders_of (w s count)) ≡ true =
          subst (λ z. has p (orders_of (w s z)) ≡ true) (sym it) at in
        absurd (ground (arith, m.absent s))
    | inr other ↦
        let (b, found, mk) = m.market s k (listed_of_code k other) in
        let (x, next, live) = resting_entry e.heap s k (w s k) p mk.resting at in
        (resting_order s k x next, live)
  ]

  -- Two markets share no order.
  pub markets-apart :
      (e : Engine strategy) (w : World) (s s' : Side) (k k' : InstrumentType) (p : Ptr)
      → HasMarkets e w
      → instrument_code k < 5
      → instrument_code k' < 5
      → same_market s k s' k' ≡ false
      → has p (orders_of (w s k)) ≡ true
      → has p (orders_of (w s' k')) ≡ false
  markets-apart e w s s' k k' p m l l' other here =
      elim (Bool-cases (has p (orders_of (w s' k')))) [
        | inl there ↦
            let (b, f, mk) = m.market s k l in
            let (b', f', mk') = m.market s' k' l' in
            let (x, next, live) = resting_entry e.heap s k (w s k) p mk.resting here in
            let (y, next', live') = resting_entry e.heap s' k' (w s' k') p mk'.resting there in
            let sides : s ≡ s' = ground arith in
            let kinds : k ≡ k' = ground arith in absurd (ground (arith, same_side_refl s))
        | inr gone ↦ gone
      ]

  pub get-with_book_self :
      (s : Side) (idx : ℕ) (b b0 : Book) (h : Heap) (e : Engine strategy)
      → get_elem? (books_of strategy s e) idx ≡ some b0
      → get_elem? (books_of strategy s (with_book strategy s idx b h e)) idx ≡ some b
  get-with_book_self buy idx b b0 h e found =
      get_elem?-set_self e.buy_books idx b (lt_of_get_elem? e.buy_books idx b0 found)
  get-with_book_self sell idx b b0 h e found =
      get_elem?-set_self e.sell_books idx b (lt_of_get_elem? e.sell_books idx b0 found)

  pub get-with_book_ne :
      (s s' : Side) (idx idx' : ℕ) (b : Book) (h : Heap) (e : Engine strategy)
      → (same_side s s' && idx == idx') ≡ false
      → get_elem? (books_of strategy s' (with_book strategy s idx b h e)) idx'
        ≡ get_elem? (books_of strategy s' e) idx'
  get-with_book_ne buy buy idx idx' b h e ne =
      get_elem?-set_ne e.buy_books idx idx' b (ground arith)
  get-with_book_ne sell sell idx idx' b h e ne =
      get_elem?-set_ne e.sell_books idx idx' b (ground arith)
  get-with_book_ne buy sell idx idx' b h e ne = refl
  get-with_book_ne sell buy idx idx' b h e ne = refl

  pub heap-with_book :
      (s : Side) (idx : ℕ) (b : Book) (h : Heap) (e : Engine strategy)
      → (with_book strategy s idx b h e).heap ≡ h
  heap-with_book buy idx b h e = refl
  heap-with_book sell idx b h e = refl

  -- One market is given anew; the others stay as they are.
  pub HasMarkets-with_book :
      (e : Engine strategy) (w : World) (s : Side) (k : InstrumentType) (b : Book) (h : Heap)
      (xs : List Entry)
      → HasMarkets e w
      → instrument_code k < 5
      → IsMarket laws s k b h xs
      → ((s' : Side) (k' : InstrumentType) (p : Ptr)
          → instrument_code k' < 5
          → same_market s k s' k' ≡ false
          → has p (orders_of (w s' k')) ≡ true
          → h p ≡ e.heap p)
      → HasMarkets (with_book strategy s (instrument_code k) b h e) (set_market w s k xs)
  HasMarkets-with_book e w s k b h xs m l fresh same = record {
    market = λ s' k' l'. elim (Bool-cases (same_market s k s' k')) [
      | inl at ↦
          let (sides, kinds) = eq_of_same_market s s' k k' at in
          let (b0, found, _) = m.market s k l in
          (
            b,
            subst (λ z. get_elem? (books_of strategy z changed) (instrument_code k') ≡ some b) sides
                (subst (λ z. get_elem? (books_of strategy s changed) (instrument_code z) ≡ some b)
                  kinds (get-with_book_self s (instrument_code k) b b0 h e found)),
            rw (at, heap-with_book s (instrument_code k) b h e)
                (subst (λ z. IsMarket laws z k' b h xs) sides
                  (subst (λ z. IsMarket laws s z b h xs) kinds fresh)),
          )
      | inr at ↦
          let (b', found, mk) = m.market s' k' l' in
          (
            b',
            get-with_book_ne s s' (instrument_code k) (instrument_code k') b h e at ∙ found,
            rw (at, heap-with_book s (instrument_code k) b h e)
                (IsMarket-frame laws s' k' b' e.heap h (w s' k') mk (λ p i. same s' k' p l' at i)),
          )
    ];
    absent = λ s'. absent s';
  }
    where
      changed : Engine strategy
      changed = with_book strategy s (instrument_code k) b h e

      absent : (s' : Side) → set_market w s k xs s' count ≡ []
      absent s' = elim (Bool-cases (same_market s k s' count)) [
        | inl at ↦ let (sides, kinds) = eq_of_same_market s s' k count at in absurd (ground arith)
        | inr at ↦ rw at (m.absent s')
      ]

  get-heap :
      (s : Side) (idx : ℕ) (h : Heap) (e : Engine strategy)
      → get_elem? (books_of strategy s (record e { heap = h })) idx
        ≡ get_elem? (books_of strategy s e) idx
  get-heap buy idx h e = refl
  get-heap sell idx h e = refl

  pub HasMarkets-heap :
      (e : Engine strategy) (w : World) (h : Heap)
      → HasMarkets e w
      → ((s : Side) (k : InstrumentType) (p : Ptr)
          → instrument_code k < 5
          → has p (orders_of (w s k)) ≡ true
          → h p ≡ e.heap p)
      → HasMarkets (record e { heap = h }) w
  HasMarkets-heap e w h m same = record {
    market = λ s k l.
        let (b, found, mk) = m.market s k l in
        (
          b,
          get-heap s (instrument_code k) h e ∙ found,
          IsMarket-frame laws s k b e.heap h (w s k) mk (λ p i. same s k p l i),
        );
    absent = m.absent;
  }
