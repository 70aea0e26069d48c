-- ===== src/OrderBook/Bitmask/Marks.antt =====
-- Masks that stand for a 0/1 function of the tick, with a bit set or cleared.
use flower_exchange.Base.{
  ℕ, ◌-◌, ◌*◌, ◌/◌, ◌%◌, ◌^◌, ◌≤◌, ◌<◌, ◌≡◌, ◌≢◌, arith, inl, inr, List, length, get_elem?, set,
  some, Bool-cases, ◌==◌, if◌then◌else◌, subst, lt_of_get_elem?, get_elem?-set_self,
  get_elem?-set_ne, bit_and, bit_or, length-set, sym, ◌∙◌,
}
use flower_exchange.Bits.{complement}
use flower_exchange.Bits.Laws.{
  test_bit-le-one, test_bit-bit_or, test_bit-bit_and, test_bit-pow, test_bit-complement, bit_or-lt,
  bit_and-lt, pow-lt,
}
use flower_exchange.OrderBook.Bitmask.Scan.{Holds}

-- The mask's words are the 64-bit groups of `f`, which is 0 behind the last word.
pub record IsMask (f : ℕ → ℕ) (mask : List ℕ) : Type 0 where
  pub holds : (i w : ℕ) → get_elem? mask i ≡ some w → Holds f i w
  pub beyond : (v : ℕ) → length mask * 64 ≤ v → f v ≡ 0

abbrev pub update : (ℕ → ℕ) → ℕ → ℕ → ℕ → ℕ
update f t b v = if v == t then b else f v

-- A word changed in place, when its bits change as `f` does.
IsMask-set :
    (f g : ℕ → ℕ) (mask : List ℕ) (i w : ℕ)
    → i < length mask
    → IsMask f mask
    → ((v : ℕ) → v / 64 ≢ i → g v ≡ f v)
    → Holds g i w
    → IsMask g (set mask i w)
IsMask-set f g mask i w h m same new = record {
  holds = λ j u e. elim (Bool-cases (i == j)) [
    | inl here ↦
        let at : i ≡ j = ground arith in
        let word : w ≡ u = ground (arith, get_elem?-set_self mask i w h) in
        subst (Holds g j) word (subst (λ k. Holds g k w) at new)
    | inr there ↦
        elsewhere j u (ground arith)
          (m.holds j u (sym (get_elem?-set_ne mask i j w (ground arith)) ∙ e))
  ];
  beyond = λ v l. ground (arith, same v, length-set mask i w, m.beyond v);
}
  where
    elsewhere : (j u : ℕ) → i ≢ j → Holds f j u → Holds g j u
    elsewhere j u ne (small, bits) = (small, λ v p q. same v (omega arith) ∙ bits v p q)

-- Setting the bit of tick `t`.
pub set-IsMask :
    (f : ℕ → ℕ) (mask : List ℕ) (t w : ℕ)
    → IsMask f mask
    → get_elem? mask (t / 64) ≡ some w
    → IsMask (update f t 1) (set mask (t / 64) (bit_or w (2 ^ (t % 64))))
set-IsMask f mask t w m e =
    let (small, bits) = m.holds (t / 64) w e in
    IsMask-set f (update f t 1) mask (t / 64) _ (lt_of_get_elem? mask (t / 64) w e) m
      (λ v ne. ground arith)
      (
        bit_or-lt 64 w (2 ^ (t % 64)) small (pow-lt (t % 64) 64 (omega arith)),
        λ v p q. ground (
          arith,
          test_bit-bit_or w (2 ^ (t % 64)) (v - t / 64 * 64),
          test_bit-pow (t % 64) (v - t / 64 * 64),
          test_bit-le-one w (v - t / 64 * 64),
          bits v p q,
        ),
      )

-- Clearing it.
pub clear-IsMask :
    (f : ℕ → ℕ) (mask : List ℕ) (t w : ℕ)
    → IsMask f mask
    → get_elem? mask (t / 64) ≡ some w
    → IsMask (update f t 0) (set mask (t / 64) (bit_and w (complement (2 ^ (t % 64)))))
clear-IsMask f mask t w m e =
    let (small, bits) = m.holds (t / 64) w e in
    let bit_fits : 2 ^ (t % 64) < 2 ^ 64 = pow-lt (t % 64) 64 (omega arith) in
    IsMask-set f (update f t 0) mask (t / 64) _ (lt_of_get_elem? mask (t / 64) w e) m
      (λ v ne. ground arith)
      (
        bit_and-lt 64 w (complement (2 ^ (t % 64))) small (omega arith),
        λ v p q. ground (
          arith,
          test_bit-bit_and w (complement (2 ^ (t % 64))) (v - t / 64 * 64),
          test_bit-complement 64 (2 ^ (t % 64)) (v - t / 64 * 64) bit_fits (omega arith),
          test_bit-pow (t % 64) (v - t / 64 * 64),
          test_bit-le-one w (v - t / 64 * 64),
          bits v p q,
        ),
      )
