-- ===== src/Doubles.antt =====
-- Floating point, as the source uses it: the type `double`, its comparisons and arithmetic, `llround`
-- and `std::pow` are parameters. src/common/types.cpp converts prices by them.
pub mod Ticks
pub mod Parse
pub mod Range
use flower_exchange.Base.{
  ℕ, ◌-◌, ◌^◌, Bool, true, false, ◌≡◌, ◌≤◌, ◌<◌, ℤ, pos, negsuc, if◌then◌else◌, not,
}

pub record Doubles : Type 1 where
  pub Double : Type 0
  pub isfinite : Double → Bool
  pub leb_double : Double → Double → Bool
  pub ltb_double : Double → Double → Bool
  -- `static_cast<double>` of an integer, and whole literals.
  pub of_int : ℤ → Double
  pub add_double : Double → Double → Double
  pub mul_double : Double → Double → Double
  pub div_double : Double → Double → Double
  pub neg_double : Double → Double
  -- `std::pow(10.0, e)`.
  pub pow_ten : Double → Double
  pub llround : Double → ℤ
  -- The literals `0.01` and `0.1`.
  pub hundredth : Double
  pub tenth : Double

-- `kMinValidPrice` and `kMaxValidPrice` of src/common/runtime_config.h.
module _ (doubles : Doubles) where
  open doubles use {Double, of_int, mul_double, hundredth}

  abbrev pub tick_size : Double
  tick_size = hundredth

  abbrev pub min_valid_price : Double
  min_valid_price = of_int (pos 0)

  abbrev pub max_valid_price : Double
  max_valid_price = mul_double (of_int (pos 100000)) hundredth
