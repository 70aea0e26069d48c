-- ===== src/OrderBook/Bitmask/Mask.antt =====
-- The mask as a function of the tick: setting and clearing a bit, and the two searches.
use flower_exchange.Base.{
  ℕ, suc, ◌+◌, ◌-◌, ◌*◌, ◌/◌, ◌%◌, ◌^◌, ◌<◌, ◌≡◌, refl, arith, inl, inr, List, [], ◌∷◌, length,
  get_elem?, drop, some, Bool-cases, Bool, true, false, ◌==◌, ltb, leb, if◌then◌else◌, ℤ, pos,
  negsuc, subst, ==_iff, get_elem?_of_lt, lt_of_get_elem?, get_elem?-drop, length-drop, sym, ◌∙◌,
}
use flower_exchange.Bits.{complement, ctzll, clzll}
use flower_exchange.Bits.Laws.{
  test_bit-le-one, test_bit-bit_and, test_bit-complement, test_bit-low_mask, bit_and-lt, pow-lt,
  test_bit-zero,
}
use flower_exchange.OrderBook.Levels.{IsLeast, IsGreatest, IsLeast-extend, IsGreatest-extend}
use flower_exchange.OrderBook.Bitmask.{
  keep_above, keep_below, scan_up, scan_down, find_next_from, find_prev_from,
}
use flower_exchange.OrderBook.Bitmask.Scan.{
  Holds, zero-Holds, ctzll-IsLeast, clzll-IsGreatest, scan_up_lem, scan_down_lem,
}
use flower_exchange.OrderBook.Bitmask.Marks.{IsMask}

-- The bits strictly above `t`, and those strictly below.
above : (ℕ → ℕ) → ℕ → ℕ → ℕ
above f t v = if ltb t v then f v else 0

below : (ℕ → ℕ) → ℕ → ℕ → ℕ
below f t v = if ltb v t then f v else 0

above-Holds :
    (f : ℕ → ℕ) (t w : ℕ) → Holds f (t / 64) w → Holds (above f t) (t / 64) (keep_above w (t % 64))
unfolding keep_above above
above-Holds f t w (small, bits) = elim (Bool-cases (ltb (t % 64) 63)) [
  | inl e ↦
      let cut : 2 ^ (t % 64 + 1) < 2 ^ 64 = pow-lt (t % 64 + 1) 64 (ground arith) in
      rw e (
        bit_and-lt 64 w (complement (2 ^ (t % 64 + 1) - 1)) small (omega arith),
        λ v p q. ground (
          arith,
          test_bit-bit_and w (complement (2 ^ (t % 64 + 1) - 1)) (v - t / 64 * 64),
          test_bit-complement 64 (2 ^ (t % 64 + 1) - 1) (v - t / 64 * 64) (omega arith)
              (omega arith),
          test_bit-low_mask (t % 64 + 1) (v - t / 64 * 64),
          test_bit-le-one w (v - t / 64 * 64),
          bits v p q,
        ),
      )
  | inr e ↦ rw e (omega arith, λ v p q. ground (arith, test_bit-zero (v - t / 64 * 64)))
]

below-Holds :
    (f : ℕ → ℕ) (t w : ℕ) → Holds f (t / 64) w → Holds (below f t) (t / 64) (keep_below w (t % 64))
unfolding keep_below below
below-Holds f t w (small, bits) = elim (Bool-cases (ltb 0 (t % 64))) [
  | inl e ↦ rw e (
    bit_and-lt 64 w (2 ^ (t % 64) - 1) small (omega (arith, pow-lt (t % 64) 64 (omega arith))),
    λ v p q. ground (
      arith,
      test_bit-bit_and w (2 ^ (t % 64) - 1) (v - t / 64 * 64),
      test_bit-low_mask (t % 64) (v - t / 64 * 64),
      test_bit-le-one w (v - t / 64 * 64),
      bits v p q,
    ),
  )
  | inr e ↦ rw e (omega arith, λ v p q. ground (arith, test_bit-zero (v - t / 64 * 64)))
]

above-IsLeast :
    (f : ℕ → ℕ) (t : ℕ) (r : ℤ) → IsLeast (above f t) (t / 64 * 64) r → IsLeast f (suc t) r
unfolding above
above-IsLeast f t (pos u) (l, e, low) = (ground arith, ground arith, λ v p q. ground (arith, low v))
above-IsLeast f t (negsuc n) (e, low) = (e, λ v p. ground (arith, low v))

below-IsGreatest :
    (f : ℕ → ℕ) (t : ℕ) (r : ℤ) → IsGreatest (below f t) (t / 64 * 64 + 64) r → IsGreatest f t r
unfolding below
below-IsGreatest f t (pos u) (l, e, high) =
    (ground arith, ground arith, λ v p q. ground (arith, high v))
below-IsGreatest f t (negsuc n) (e, high) = (e, λ v p. ground (arith, high v))

find_in_word :
    (f : ℕ → ℕ) (mask : List ℕ) (t w : ℕ)
    → IsMask f mask
    → get_elem? mask (t / 64) ≡ some w
    → IsLeast f (suc t) (
        if keep_above w (t % 64) == 0
        then scan_up (t / 64 + 1) (drop (t / 64 + 1) mask)
        else pos (t / 64 * 64 + ctzll (keep_above w (t % 64))))
find_in_word f mask t w m at =
    let kept : Holds (above f t) (t / 64) (keep_above w (t % 64)) =
      above-Holds f t w (m.holds (t / 64) w at) in
    elim (Bool-cases (keep_above w (t % 64) == 0)) [
      | inl e ↦
          let none_kept : Holds (above f t) (t / 64) 0 =
            subst (Holds (above f t) (t / 64)) ((==_iff _ 0).0 e) kept in
          rw e (
            IsLeast-extend f (suc t) ((t / 64 + 1) * 64) _ (omega arith)
              (λ v p q. unfold above in ground (arith, zero-Holds (above f t) (t / 64) v none_kept))
              (scan_up_lem f (t / 64 + 1) (drop (t / 64 + 1) mask)
                (λ j u l. m.holds (t / 64 + 1 + j) u (sym (get_elem?-drop (t / 64 + 1) j mask) ∙ l))
                (λ v l. m.beyond v (omega (arith, length-drop (t / 64 + 1) mask)))))
      | inr e ↦ rw e (
          above-IsLeast f t (pos (t / 64 * 64 + ctzll (keep_above w (t % 64))))
            (ctzll-IsLeast (above f t) (t / 64) _ kept (ground arith)))
    ]

find_below_word :
    (f : ℕ → ℕ) (mask : List ℕ) (t w : ℕ)
    → IsMask f mask
    → get_elem? mask (t / 64) ≡ some w
    → (r : ℤ) × ((if keep_below w (t % 64) == 0
          then scan_down (t / 64) mask
          else some (pos (t / 64 * 64 + (63 - clzll (keep_below w (t % 64))))))
        ≡ some r)
      × IsGreatest f t r
find_below_word f mask t w m at =
    let kept : Holds (below f t) (t / 64) (keep_below w (t % 64)) =
      below-Holds f t w (m.holds (t / 64) w at) in
    elim (Bool-cases (keep_below w (t % 64) == 0)) [
      | inl e ↦
          let none_kept : Holds (below f t) (t / 64) 0 =
            subst (Holds (below f t) (t / 64)) ((==_iff _ 0).0 e) kept in
          let (r, returns, greatest) =
            scan_down_lem f (t / 64) mask (omega (arith, lt_of_get_elem? mask (t / 64) w at))
              (λ j u l. m.holds j u) in
          (
            r,
            rw e returns,
            IsGreatest-extend f (t / 64 * 64) t r (omega arith)
                (λ v p q.
                  unfold below in ground (arith, zero-Holds (below f t) (t / 64) v none_kept))
                greatest,
          )
      | inr e ↦ (
        pos (t / 64 * 64 + (63 - clzll (keep_below w (t % 64)))),
        rw e,
        below-IsGreatest f t (pos (t / 64 * 64 + (63 - clzll (keep_below w (t % 64)))))
            (clzll-IsGreatest (below f t) (t / 64) _ kept (ground arith)),
      )
    ]

-- On a mask that stands for `f`, `find_next_from` meets no fault and gives the least tick strictly
-- above `t` at which `f` is 1, or -1.
pub find_next_from_lem :
    (f : ℕ → ℕ) (mask : List ℕ) (t : ℕ)
    → IsMask f mask
    → (r : ℤ) × (find_next_from t mask ≡ some r) × IsLeast f (suc t) r
unfolding find_next_from
find_next_from_lem f mask t m = elim (Bool-cases (leb (length mask) (t / 64))) [
  | inl e ↦ (negsuc 0, rw e, (refl, λ v p. m.beyond v (ground arith)))
  | inr e ↦
      let (w, at) = get_elem?_of_lt mask (t / 64) (ground arith) in
      (_, rw (e, at) (choose (keep_above w (t % 64) == 0) _ _), find_in_word f mask t w m at)
]
  where
    choose : (b : Bool) (x y : ℤ) → (if b then some x else some y) ≡ some (if b then x else y)
    choose true x y = refl
    choose false x y = refl

-- On a mask that stands for `f`, and for a `t` within it, `find_prev_from` meets no fault and gives
-- the greatest tick strictly below `t` at which `f` is 1, or -1.
pub find_prev_from_lem :
    (f : ℕ → ℕ) (mask : List ℕ) (t : ℕ)
    → IsMask f mask
    → t / 64 < length mask
    → (r : ℤ) × (find_prev_from t mask ≡ some r) × IsGreatest f t r
unfolding find_prev_from
find_prev_from_lem f [] t m h = absurd (omega arith)
find_prev_from_lem f (first ∷ others) t m h =
    let e : leb (length (first ∷ others)) (t / 64) ≡ false = ground arith in
    let (w, at) = get_elem?_of_lt (first ∷ others) (t / 64) h in
    let (r, returns, greatest) = find_below_word f (first ∷ others) t w m at in
    (r, rw (e, at) returns, greatest)
