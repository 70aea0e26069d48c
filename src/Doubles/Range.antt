-- ===== src/Doubles/Range.antt =====
-- The ticks of the prices that validation accepts.
use flower_exchange.Base.{
  ◌-◌, ◌^◌, ◌≤◌, ◌<◌, ◌≡◌, ap, arith, inl, inr, true, false, Bool-cases, ℤ, pos, negsuc, pos_part,
  neg_part,
}
use flower_exchange.Types.{order_book_tick_capacity}
use flower_exchange.Doubles.{Doubles, min_valid_price, max_valid_price}
use flower_exchange.Doubles.Ticks.{to_uint64, double_to_ticks}

-- What IEEE arithmetic guarantees: finite numbers are comparable, `<=` is transitive, division by
-- 0.01 is monotone, 0.0 / 0.01 is 0.0, and the largest price, 1000.0, is 100000 ticks. Of `llround`
-- only what C documents is asked for: on numbers from 0.0 to 2^53, whose rounded values `long long`
-- holds, it is monotone and gives nothing negative.
pub record DoubleLaws (doubles : Doubles) : Type 0 where
  pub not_above :
      (x y : doubles.Double)
      → doubles.isfinite x ≡ true
      → doubles.isfinite y ≡ true
      → doubles.ltb_double x y ≡ false
      → doubles.leb_double y x ≡ true
  pub total :
      (x y : doubles.Double)
      → doubles.isfinite x ≡ true
      → doubles.isfinite y ≡ true
      → doubles.leb_double x y ≡ false
      → doubles.leb_double y x ≡ true
  pub leb_trans :
      (x y z : doubles.Double)
      → doubles.leb_double x y ≡ true
      → doubles.leb_double y z ≡ true
      → doubles.leb_double x z ≡ true
  pub div_mono :
      (x y : doubles.Double)
      → doubles.leb_double x y ≡ true
      → doubles.leb_double
          (doubles.div_double x doubles.hundredth)
          (doubles.div_double y doubles.hundredth)
        ≡ true
  pub llround_mono :
      (x y : doubles.Double)
      → doubles.leb_double (doubles.of_int (pos 0)) x ≡ true
      → doubles.leb_double x y ≡ true
      → doubles.leb_double y (doubles.of_int (pos (2 ^ 53))) ≡ true
      → pos_part (doubles.llround x) ≤ pos_part (doubles.llround y)
  pub llround_positive :
      (x : doubles.Double)
      → doubles.leb_double (doubles.of_int (pos 0)) x ≡ true
      → doubles.leb_double x (doubles.of_int (pos (2 ^ 53))) ≡ true
      → neg_part (doubles.llround x) ≡ 0
  pub zero_finite : doubles.isfinite (doubles.of_int (pos 0)) ≡ true
  pub zero_ticks :
      doubles.leb_double
        (doubles.of_int (pos 0))
        (doubles.div_double (doubles.of_int (pos 0)) doubles.hundredth)
      ≡ true
  pub largest_finite : doubles.isfinite (max_valid_price doubles) ≡ true
  pub largest_small :
      doubles.leb_double
        (doubles.of_int (pos (2 ^ 64 - 1)))
        (doubles.div_double (max_valid_price doubles) doubles.hundredth)
      ≡ false
  pub largest_in_range :
      doubles.leb_double
        (doubles.div_double (max_valid_price doubles) doubles.hundredth)
        (doubles.of_int (pos (2 ^ 53)))
      ≡ true
  pub largest_ticks :
      doubles.llround (doubles.div_double (max_valid_price doubles) doubles.hundredth) ≡ pos 100000

to_uint64-small : (z : ℤ) → neg_part z ≡ 0 → pos_part z ≤ 100000 → to_uint64 z ≡ pos_part z
to_uint64-small (pos n) e h = omega (arith, h)
to_uint64-small (negsuc n) e h = absurd (omega (arith, e))

module _ (doubles : Doubles) (laws : DoubleLaws doubles) (price : doubles.Double)
    (finite : doubles.isfinite price ≡ true)
    (above : doubles.leb_double price (min_valid_price doubles) ≡ false)
    (below : doubles.ltb_double (max_valid_price doubles) price ≡ false) where
  open doubles use {leb_double, of_int, div_double, llround, hundredth}

  small :
      leb_double (div_double price hundredth) (div_double (max_valid_price doubles) hundredth)
      ≡ true
  small =
      laws.div_mono price (max_valid_price doubles)
        (laws.not_above (max_valid_price doubles) price laws.largest_finite finite below)

  positive : leb_double (of_int (pos 0)) (div_double price hundredth) ≡ true
  positive = laws.leb_trans _ _ _ laws.zero_ticks (
      laws.div_mono (of_int (pos 0)) price
        (laws.total price (of_int (pos 0)) finite laws.zero_finite above))

  llround-le : pos_part (llround (div_double price hundredth)) ≤ 100000
  llround-le = omega (
    arith,
    laws.llround_mono _ _ positive small laws.largest_in_range,
    ap pos_part laws.largest_ticks,
  )

  -- The tick of a valid price is the number of its hundredths, rounded.
  pub double_to_ticks-llround :
      double_to_ticks doubles price ≡ pos_part (llround (div_double price hundredth))
  unfolding double_to_ticks
  double_to_ticks-llround =
      elim (Bool-cases (leb_double (of_int (pos (2 ^ 64 - 1))) (div_double price hundredth))) [
        | inl huge ↦
            let e = laws.leb_trans _ _ _ huge small in absurd (ground (arith, laws.largest_small))
        | inr fine ↦
            let sign =
              laws.llround_positive _ positive (laws.leb_trans _ _ _ small laws.largest_in_range) in
            rw (finite, above, fine)
              (to_uint64-small (llround (div_double price hundredth)) sign llround-le)
      ]

-- Over doubles that keep `DoubleLaws`: a finite price above the smallest and not above the largest
-- valid price has a tick below the capacity of the books.
pub double_to_ticks-lt :
    (doubles : Doubles) (laws : DoubleLaws doubles) (price : doubles.Double)
    → doubles.isfinite price ≡ true
    → doubles.leb_double price (min_valid_price doubles) ≡ false
    → doubles.ltb_double (max_valid_price doubles) price ≡ false
    → double_to_ticks doubles price < order_book_tick_capacity
double_to_ticks-lt doubles laws price finite above below = omega (
  arith,
  double_to_ticks-llround doubles laws price finite above below,
  llround-le doubles laws price finite above below,
)
