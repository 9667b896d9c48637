-- ===== src/Go/Words.antt =====
-- Go's fixed-width integers. A value is the number of its bit pattern, with the wrap-around
-- written out; a signed value is the integer that the pattern stands for (two's complement).
use ublk_go.Prelude.{ℕ, ◌+◌, ◌-◌, ◌%◌, ◌^◌, ◌≡◌, ◌<◌, arith, ltb, if◌then◌else◌}
use ublk_go.Prelude.Int.{ℤ, pos, negsuc}

abbrev pub u8 : ℕ → ℕ
u8 n = n % 2 ^ 8

abbrev pub u16 : ℕ → ℕ
u16 n = n % 2 ^ 16

abbrev pub u32 : ℕ → ℕ
u32 n = n % 2 ^ 32

abbrev pub u64 : ℕ → ℕ
u64 n = n % 2 ^ 64

-- uint32 subtraction, which wraps.
abbrev pub sub_u32 : ℕ → ℕ → ℕ
sub_u32 a b = (a + 2 ^ 32 - b) % 2 ^ 32

-- `^uint32(0)` and `^uint16(0)`
abbrev pub max_u32 : ℕ
max_u32 = 2 ^ 32 - 1

abbrev pub max_u16 : ℕ
max_u16 = 2 ^ 16 - 1

-- The value of a 32-bit and of a 64-bit pattern as an int32 and an int64.
unfoldable pub int32 : ℕ → ℤ
int32 n = let w = u32 n in if ltb w (2 ^ 31) then pos w else negsuc (2 ^ 32 - w - 1)

unfoldable pub int64 : ℕ → ℤ
int64 n = let w = u64 n in if ltb w (2 ^ 63) then pos w else negsuc (2 ^ 64 - w - 1)

-- The pattern of an int32.
unfoldable pub word32 : ℤ → ℕ
word32 (pos n) = u32 n
word32 (negsuc n) = (2 ^ 32 - 1) - n % 2 ^ 32

-- An int32 that fits is read back from its pattern.
pub int32-pos : (n : ℕ) → n < 2 ^ 31 → int32 n ≡ pos n
unfolding int32
int32-pos n h = ground arith

pub int64-pos : (n : ℕ) → n < 2 ^ 63 → int64 n ≡ pos n
unfolding int64
int64-pos n h = ground arith

pub int32-word32_neg : (n : ℕ) → n < 2 ^ 31 → int32 (word32 (negsuc n)) ≡ negsuc n
unfolding int32 word32
int32-word32_neg n h = ground arith

-- `int32(n)` of an int.
unfoldable pub to_int32 : ℤ → ℤ
to_int32 n = int32 (word32 n)

-- The conversion is exact below 2 ^ 31, and only there for a number below 2 ^ 32.
pub to_int32-pos : (n : ℕ) → n < 2 ^ 31 → to_int32 (pos n) ≡ pos n
unfolding to_int32 int32 word32
to_int32-pos n h = ground arith
