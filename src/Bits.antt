-- ===== src/Bits.antt =====
-- 64-bit words bit by bit: what `|`, `&`, `~`, `<<` and the builtins that count zeros mean.
pub mod Step
pub mod Laws
pub mod Count
use flower_exchange.Base.{ℕ, zero, suc, ◌+◌, ◌-◌, ◌/◌, ◌%◌, ◌^◌, ◌==◌, if◌then◌else◌}

-- Bit `k` of a word, 0 or 1.
unfoldable pub test_bit : ℕ → ℕ → ℕ
test_bit w zero = w % 2
test_bit w (suc k) = test_bit (w / 2) k

-- `~w` on `uint64_t`.
abbrev pub complement : ℕ → ℕ
complement w = 2 ^ 64 - 1 - w

-- Zeros from bit 0 upwards, among `width` bits.
unfoldable pub trailing_zeros : ℕ → ℕ → ℕ
trailing_zeros zero w = 0
trailing_zeros (suc width) w =
    let rest = suc (trailing_zeros width (w / 2)) in if w % 2 == 1 then 0 else rest

-- Zeros from bit `width - 1` downwards.
unfoldable pub leading_zeros : ℕ → ℕ → ℕ
leading_zeros zero w = 0
leading_zeros (suc width) w =
    let rest = suc (leading_zeros width w) in if test_bit w width == 1 then 0 else rest

-- `__builtin_ctzll` and `__builtin_clzll`, for a word that is not 0.
abbrev pub ctzll : ℕ → ℕ
ctzll = trailing_zeros 64

abbrev pub clzll : ℕ → ℕ
clzll = leading_zeros 64
