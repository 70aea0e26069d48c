-- ===== src/OrderBook/Bitmask/Scan.antt =====
-- `scan_up` finds the least set bit from a word on, `scan_down` the greatest below a word.
use flower_exchange.Base.{
  ℕ, zero, suc, ◌+◌, ◌-◌, ◌*◌, ◌^◌, ◌≤◌, ◌<◌, ◌≡◌, ◌≢◌, refl, arith, inl, inr, List, [], ◌∷◌,
  length, get_elem?, some, Bool-cases, ◌==◌, ℤ, pos, negsuc, subst, ==_iff, get_elem?_of_lt,
}
use native.Mathlib.Nat.{add-zero}
use flower_exchange.Bits.{test_bit, ctzll, clzll}
use flower_exchange.Bits.Laws.{test_bit-zero}
use flower_exchange.Bits.Count.{some_bit, trailing_zeros_lem, leading_zeros_lem}
use flower_exchange.OrderBook.Levels.{IsLeast, IsGreatest, IsLeast-extend, IsGreatest-extend}
use flower_exchange.OrderBook.Bitmask.{scan_up, scan_down}

-- Word `i` holds the bits `64 * i` to `64 * i + 63` of `f`.
abbrev pub Holds : (ℕ → ℕ) → ℕ → ℕ → Type 0
Holds f i w =
    (w < 2 ^ 64) × ((v : ℕ) → i * 64 ≤ v → v < i * 64 + 64 → f v ≡ test_bit w (v - i * 64))

pub zero-Holds : (f : ℕ → ℕ) (i v : ℕ) → Holds f i 0 → i * 64 ≤ v → v < i * 64 + 64 → f v ≡ 0
zero-Holds f i v (_, bits) p q = ground (arith, bits v p q, test_bit-zero (v - i * 64))

-- The least bit of a word that is not 0.
pub ctzll-IsLeast :
    (f : ℕ → ℕ) (i w : ℕ) → Holds f i w → w ≢ 0 → IsLeast f (i * 64) (pos (i * 64 + ctzll w))
ctzll-IsLeast f i w (small, bits) p =
    let (k, l, e) = some_bit 64 w small p in
    let (lt, hit, low) = trailing_zeros_lem 64 w k l e in
    (
      omega arith,
      ground (arith, bits (i * 64 + ctzll w)),
      λ v m n. ground (arith, bits v, low (v - i * 64)),
    )

pub clzll-IsGreatest :
    (f : ℕ → ℕ) (i w : ℕ)
    → Holds f i w
    → w ≢ 0
    → IsGreatest f (i * 64 + 64) (pos (i * 64 + (63 - clzll w)))
clzll-IsGreatest f i w (small, bits) p =
    let (k, l, e) = some_bit 64 w small p in
    let (lt, hit, high) = leading_zeros_lem 64 w k l e in
    (
      omega arith,
      ground (arith, bits (i * 64 + (63 - clzll w))),
      λ v m n. ground (arith, bits v, high (v - i * 64)),
    )

-- Where the words from `i` on hold the bits of `f`, and `f` is 0 behind them.
pub scan_up_lem :
    (f : ℕ → ℕ) (i : ℕ) (words : List ℕ)
    → ((j w : ℕ) → get_elem? words j ≡ some w → Holds f (i + j) w)
    → ((v : ℕ) → (i + length words) * 64 ≤ v → f v ≡ 0)
    → IsLeast f (i * 64) (scan_up i words)
unfolding scan_up
scan_up_lem f i [] holds beyond = (refl, λ v p. beyond v (omega arith))
scan_up_lem f i (w ∷ words) holds beyond =
    let here : Holds f i w = subst (λ k. Holds f k w) (add-zero i) (holds 0 w refl) in
    let rest : IsLeast f (suc i * 64) (scan_up (suc i) words) =
      scan_up_lem f (suc i) words
        (λ j v e. subst (λ k. Holds f k v) (shift i j) (holds (suc j) v e))
        (λ v p. beyond v (omega arith)) in
    elim (Bool-cases (w == 0)) [
      | inl e ↦ rw e (
          IsLeast-extend f (i * 64) (suc i * 64) (scan_up (suc i) words) (omega arith)
            (λ v p q. zero-Holds f i v (subst (Holds f i) ((==_iff w 0).0 e) here) p (omega arith))
            rest)
      | inr e ↦ rw e (ctzll-IsLeast f i w here (ground arith))
    ]
  where
    shift : (i j : ℕ) → i + suc j ≡ suc i + j
    shift i j = omega arith

-- Where the words below `n` hold the bits of `f`, the scan meets no fault.
pub scan_down_lem :
    (f : ℕ → ℕ) (n : ℕ) (mask : List ℕ)
    → n ≤ length mask
    → ((j w : ℕ) → j < n → get_elem? mask j ≡ some w → Holds f j w)
    → (r : ℤ) × (scan_down n mask ≡ some r) × IsGreatest f (n * 64) r
unfolding scan_down
scan_down_lem f zero mask h holds = (negsuc 0, refl, (refl, λ v p. absurd (omega arith)))
scan_down_lem f (suc n) mask h holds =
    let (w, e) = get_elem?_of_lt mask n (omega arith) in
    let here : Holds f n w = holds n w (omega arith) e in
    let (r, returns, rest) =
      scan_down_lem f n mask (omega arith) (λ j v l. holds j v (omega arith)) in
    elim (Bool-cases (w == 0)) [
      | inl z ↦ (
        r,
        rw (e, z) returns,
        IsGreatest-extend f (n * 64) (suc n * 64) r (omega arith)
            (λ v p q. zero-Holds f n v (subst (Holds f n) ((==_iff w 0).0 z) here) p (omega arith))
            rest,
      )
      | inr z ↦ (
        pos (n * 64 + (63 - clzll w)),
        rw (e, z),
        subst (λ k. IsGreatest f k (pos (n * 64 + (63 - clzll w)))) (shift n)
            (clzll-IsGreatest f n w here (ground arith)),
      )
    ]
  where
    shift : (n : ℕ) → n * 64 + 64 ≡ suc n * 64
    shift n = omega arith
