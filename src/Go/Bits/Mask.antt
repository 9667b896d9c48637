-- ===== src/Go/Bits/Mask.antt =====
-- Masking by 2 ^ k - 1 is the remainder by 2 ^ k.
use Prim.Native.Nat.{digits, bit_and-bitwise, ◌∣◌}
use native.Mathlib.Nat.{
  div-div-eq-div-mul, div-add-mod, mod-lt, one-dvd, mul-dvd-mul_right, mod-mod_of_dvd, pow-suc,
}
use ublk_go.Prelude.{
  ℕ, zero, suc, ◌+◌, ◌-◌, ◌*◌, ◌/◌, ◌%◌, ◌^◌, ◌≤◌, ◌<◌, ◌≡◌, refl, min, bit_and, arith, sym, ap,
  ◌∙◌,
}
use ublk_go.Go.Words.{u32}
use ublk_go.Go.Bits.Laws.{pow-two-suc, pow-two-pos}

-- The digit recursion that `bit_and` stands for; more rounds than digits change nothing.
abbrev and_rounds : ℕ → ℕ → ℕ → ℕ
and_rounds r a b = digits (λ _. zero) min r a b

and_rounds_enough : (r s a b : ℕ) → a ≤ r → a ≤ s → and_rounds r a b ≡ and_rounds s a b
and_rounds_enough zero zero a b p q = refl
and_rounds_enough zero (suc s) zero b p q = refl
and_rounds_enough zero (suc s) (suc a) b p q = absurd (omega arith)
and_rounds_enough (suc r) zero zero b p q = refl
and_rounds_enough (suc r) zero (suc a) b p q = absurd (omega arith)
and_rounds_enough (suc r) (suc s) zero b p q = refl
and_rounds_enough (suc r) (suc s) (suc a) b p q =
    omega (arith, and_rounds_enough r s (suc a / 2) (b / 2) (omega arith) (omega arith))

-- One binary digit of a conjunction.
bit_and-digit : (a b : ℕ) → bit_and a b ≡ bit_and (a / 2) (b / 2) * 2 + min (a % 2) (b % 2)
bit_and-digit zero b = omega (arith, bit_and-bitwise 0 b, bit_and-bitwise 0 (b / 2))
bit_and-digit (suc a) b = omega (
  arith,
  bit_and-bitwise (suc a) b,
  bit_and-bitwise (suc a / 2) (b / 2),
  and_rounds_enough a (suc a / 2) (suc a / 2) (b / 2) (omega arith) (omega arith),
)

bit_and-zero : (r a : ℕ) → a ≤ r → bit_and a 0 ≡ 0
bit_and-zero r zero h = omega (arith, bit_and-bitwise 0 0)
bit_and-zero zero (suc a) h = absurd (omega arith)
bit_and-zero (suc r) (suc a) h =
    omega (arith, bit_and-digit (suc a) 0, bit_and-zero r (suc a / 2) (omega arith))

div-double : (a m : ℕ) → a / (m + m) ≡ a / 2 / m
div-double a m = sym (div-div-eq-div-mul a 2 m ∙ ap (λ (k : ℕ). a / k) (omega arith))

mod-double : (a m : ℕ) → 0 < m → a % (m + m) ≡ a / 2 % m * 2 + a % 2
mod-double a m h = omega (
  arith,
  div-add-mod a (m + m),
  ap (λ (q : ℕ). (m + m) * q) (div-double a m),
  div-add-mod (a / 2) m,
  mod-lt (a / 2) h,
)

mask_half : (k : ℕ) → (2 ^ suc k - 1) / 2 ≡ 2 ^ k - 1
mask_half k = omega (arith, pow-two-suc k, pow-two-pos k)

pub bit_and-mask : (k a : ℕ) → bit_and a (2 ^ k - 1) ≡ a % 2 ^ k
bit_and-mask zero a = omega (arith, bit_and-zero a a (omega arith))
bit_and-mask (suc k) a =
    rw (bit_and-digit a (2 ^ suc k - 1), mask_half k, bit_and-mask k (a / 2), pow-two-suc k)
      (omega (arith, mod-double a (2 ^ k) (pow-two-pos k), pow-two-suc k, pow-two-pos k))

pow-two-dvd : (j k : ℕ) → j ≤ k → 2 ^ j ∣ 2 ^ k
pow-two-dvd zero k h = one-dvd (2 ^ k)
pow-two-dvd (suc j) zero h = absurd (omega arith)
pow-two-dvd (suc j) (suc k) h =
    rw (pow-suc 2 j, pow-suc 2 k) (mul-dvd-mul_right (2 ^ j) (pow-two-dvd j k (omega arith)) 2)

-- An index taken after a uint32 wrap is the index of the number that wrapped.
pub u32-mod-pow : (k a : ℕ) → k ≤ 32 → u32 a % 2 ^ k ≡ a % 2 ^ k
u32-mod-pow k a h = mod-mod_of_dvd (2 ^ k) a (pow-two-dvd k 32 h)
