-- ===== src/Prelude/Int.antt =====
-- Signed integers over the native numbers: Go's `int`, `int64` and `int32` values.
use ublk_go.Prelude.Tests.{ltb, leb, if◌then◌else◌}
use Prim.Native.Nat.{ℕ, ◌-◌}
use mathlib.Core.Path.{◌≡◌}
use native.Mathlib.Omega.{arith}
use mathlib.Core.Bool.{Bool, true, false}

-- `negsuc n` is -(n + 1).
pub data ℤ : Type 0 where
  pos : ℕ → ℤ
  negsuc : ℕ → ℤ

-- `-n` for a number.
abbrev pub neg : ℕ → ℤ
neg n = if leb n 0 then pos 0 else negsuc (n - 1)

abbrev pub is_neg : ℤ → Bool
is_neg (pos _) = false
is_neg (negsuc _) = true

-- Whether an integer is the given number.
abbrev pub is_pos : ℤ → ℕ → Bool
is_pos (pos m) n = if ltb m n then false else leb m n
is_pos (negsuc _) n = false

pub eq_of_is_pos : (a : ℤ) (n : ℕ) → is_pos a n ≡ true → a ≡ pos n
eq_of_is_pos (pos m) n h = ground arith
eq_of_is_pos (negsuc m) n h = cc

pub is_pos_self : (n : ℕ) → is_pos (pos n) n ≡ true
is_pos_self n = ground arith
