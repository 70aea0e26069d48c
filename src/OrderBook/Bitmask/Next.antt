-- ===== src/OrderBook/Bitmask/Next.antt =====
-- The least and the greatest tick once a level has closed.
use flower_exchange.Base.{
  ℕ, suc, ◌/◌, ◌<◌, ◌≡◌, arith, inl, inr, List, some, if◌then◌else◌, ℤ, pos, negsuc, length,
  Bool-cases, eqb_ℤ,
}
use flower_exchange.OrderBook.Levels.{IsLeast, IsGreatest, IsLeast-extend, IsGreatest-extend}
use flower_exchange.OrderBook.Bitmask.{find_next_from, find_prev_from}
use flower_exchange.OrderBook.Bitmask.Marks.{IsMask, update}
use flower_exchange.OrderBook.Bitmask.Mask.{find_next_from_lem, find_prev_from_lem}

-- The cached lowest tick once the bit of `t` is cleared.
pub next_first :
    (f : ℕ → ℕ) (mask : List ℕ) (t : ℕ) (first : ℤ)
    → IsMask (update f t 0) mask
    → f t ≡ 1
    → IsLeast f 0 first
    → (first' : ℤ) × ((if eqb_ℤ first (pos t) then find_next_from t mask else some first)
        ≡ some first')
      × IsLeast (update f t 0) 0 first'
next_first f mask t (pos u) m busy (l, e, low) = elim (Bool-cases (eqb_ℤ (pos u) (pos t))) [
  | inl at ↦
      let (r, returns, least) = find_next_from_lem (update f t 0) mask t m in
      (
        r,
        rw at returns,
        IsLeast-extend (update f t 0) 0 (suc t) r (omega arith) (λ v p q. ground (arith, low v))
            least,
      )
  | inr at ↦ (pos u, rw at, (omega arith, ground arith, λ v p q. ground (arith, low v)))
]
next_first f mask t (negsuc k) m busy (e, low) = absurd (ground (arith, low t))

pub next_last :
    (f : ℕ → ℕ) (mask : List ℕ) (t n : ℕ) (last : ℤ)
    → IsMask (update f t 0) mask
    → t / 64 < length mask
    → t < n
    → f t ≡ 1
    → IsGreatest f n last
    → (last' : ℤ) × ((if eqb_ℤ last (pos t) then find_prev_from t mask else some last) ≡ some last')
      × IsGreatest (update f t 0) n last'
next_last f mask t n (pos u) m inside lt busy (l, e, high) =
    elim (Bool-cases (eqb_ℤ (pos u) (pos t))) [
      | inl at ↦
          let (r, returns, greatest) = find_prev_from_lem (update f t 0) mask t m inside in
          (
            r,
            rw at returns,
            IsGreatest-extend (update f t 0) t n r (omega arith) (λ v p q. ground (arith, high v))
                greatest,
          )
      | inr at ↦ (pos u, rw at, (l, ground arith, λ v p q. ground (arith, high v)))
    ]
next_last f mask t n (negsuc k) m inside lt busy (e, high) = absurd (ground (arith, high t))
