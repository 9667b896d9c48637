-- ===== src/Go/Bits.antt =====
-- `math/bits`: OnesCount32, TrailingZeros32 and Len32, digit by digit.
pub mod Laws
pub mod Mask
use ublk_go.Prelude.{ℕ, zero, suc, ◌+◌, ◌/◌, ◌%◌, ◌==◌, if◌then◌else◌}

-- Over the lowest `w` binary digits of the number.
unfoldable pub ones_count : ℕ → ℕ → ℕ
ones_count zero n = 0
ones_count (suc w) n = n % 2 + ones_count w (n / 2)

unfoldable pub trailing_zeros : ℕ → ℕ → ℕ
trailing_zeros zero n = 0
trailing_zeros (suc w) n = let rest = trailing_zeros w (n / 2) in if n % 2 == 1 then 0 else suc rest

unfoldable pub len : ℕ → ℕ → ℕ
len zero n = 0
len (suc w) n = let rest = len w (n / 2) in if n == 0 then 0 else suc rest

unfoldable pub ones_count32 : ℕ → ℕ
ones_count32 n = ones_count 32 n

unfoldable pub trailing_zeros32 : ℕ → ℕ
trailing_zeros32 n = trailing_zeros 32 n

unfoldable pub len32 : ℕ → ℕ
len32 n = len 32 n
