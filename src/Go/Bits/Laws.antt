-- ===== src/Go/Bits/Laws.antt =====
-- What the digit counts say of a number: powers of two, and the width of a number.
use native.Mathlib.Nat.{pow-suc}
use ublk_go.Prelude.{ℕ, zero, suc, ◌+◌, ◌/◌, ◌^◌, ◌≤◌, ◌<◌, ◌≡◌, refl, arith, dec_lt, ◌*◌}
use ublk_go.Go.Bits.{ones_count, trailing_zeros, len, ones_count32, trailing_zeros32, len32}

pub pow-two-suc : (k : ℕ) → 2 ^ suc k ≡ 2 ^ k + 2 ^ k
pow-two-suc k = omega (arith, pow-suc 2 k)

pub pow-two-pos : (k : ℕ) → 0 < 2 ^ k
pow-two-pos zero = omega arith
pow-two-pos (suc k) = omega (arith, pow-two-suc k, pow-two-pos k)

ones_count-eq-zero : (w n : ℕ) → n < 2 ^ w → ones_count w n ≡ 0 → n ≡ 0
unfolding ones_count
ones_count-eq-zero zero n h e = omega arith
ones_count-eq-zero (suc w) n h e = omega (
  arith,
  pow-two-suc w,
  ones_count-eq-zero w (n / 2) (omega (arith, pow-two-suc w)) (omega arith),
)

-- A number with one digit set is the power of two of its trailing zeros.
pow_of_ones_count :
    (w n : ℕ)
    → n < 2 ^ w
    → ones_count w n ≡ 1
    → (n ≡ 2 ^ trailing_zeros w n) × (trailing_zeros w n < w)
unfolding ones_count trailing_zeros
pow_of_ones_count zero n h e = absurd (omega arith)
pow_of_ones_count (suc w) n h e = ground (
  arith,
  pow-two-suc w,
  ones_count-eq-zero w (n / 2),
  pow_of_ones_count w (n / 2),
  pow-two-suc (trailing_zeros w (n / 2)),
)

ones_count-zero : (w : ℕ) → ones_count w 0 ≡ 0
unfolding ones_count
ones_count-zero zero = refl
ones_count-zero (suc w) = omega (arith, ones_count-zero w)

pow_half : (k : ℕ) → 2 ^ suc k / 2 ≡ 2 ^ k
pow_half k = omega (arith, pow-two-suc k)

pub ones_count-pow : (w k : ℕ) → k < w → ones_count w (2 ^ k) ≡ 1
unfolding ones_count
ones_count-pow zero k h = absurd (omega arith)
ones_count-pow (suc w) zero h = omega (arith, ones_count-zero w)
ones_count-pow (suc w) (suc k) h =
    rw (pow_half k) (omega (arith, pow-two-suc k, ones_count-pow w k (omega arith)))

-- The width is the least one that holds the number.
len_bounds : (w n : ℕ) → n < 2 ^ w → (n < 2 ^ len w n) × (len w n ≤ w)
unfolding len
len_bounds zero n h = (omega arith, omega arith)
len_bounds (suc w) n h =
    ground (arith, pow-two-suc w, len_bounds w (n / 2), pow-two-suc (len w (n / 2)))

-- `2 ^ j ≤ 2 ^ k` only for `j ≤ k`.
pub exponent-lt : (j k : ℕ) → 2 ^ j < 2 ^ k → j < k
exponent-lt j zero h = absurd (omega (arith, pow-two-pos j))
exponent-lt zero (suc k) h = omega arith
exponent-lt (suc j) (suc k) h =
    omega (arith, exponent-lt j k (omega (arith, pow-two-suc j, pow-two-suc k)))

pub pow-two-le : (j k : ℕ) → j ≤ k → 2 ^ j ≤ 2 ^ k
pow-two-le zero k h = omega (arith, pow-two-pos k)
pow-two-le (suc j) zero h = absurd (omega arith)
pow-two-le (suc j) (suc k) h =
    omega (arith, pow-two-suc j, pow-two-suc k, pow-two-le j k (omega arith))

-- One digit set: the power of two of the trailing zeros.
pub ones_count32-eq-one :
    (n : ℕ)
    → n < 2 ^ 32
    → ones_count32 n ≡ 1
    → (n ≡ 2 ^ trailing_zeros32 n) × (trailing_zeros32 n < 32)
unfolding ones_count32 trailing_zeros32
ones_count32-eq-one n h e = pow_of_ones_count 32 n h e

pub ones_count32-pow : (k : ℕ) → 2 ^ k < 2 ^ 32 → ones_count32 (2 ^ k) ≡ 1
unfolding ones_count32
ones_count32-pow k h = ones_count-pow 32 k (exponent-lt k 32 h)

-- No smaller width holds a number other than 0.
pub len_least : (w n k : ℕ) → n < 2 ^ w → n < 2 ^ k → len w n ≤ k
unfolding len
len_least zero n k h b = omega arith
len_least (suc w) n zero h b = ground arith
len_least (suc w) n (suc k) h b =
    ground (arith, pow-two-suc w, pow-two-suc k, len_least w (n / 2) k)

len-zero : (w : ℕ) → len w 0 ≡ 0
unfolding len
len-zero zero = refl
len-zero (suc w) = refl

pub pow-len-le : (w n : ℕ) → n < 2 ^ w → 0 < n → 2 ^ len w n ≤ 2 * n
unfolding len
pow-len-le zero n h p = absurd (omega arith)
pow-len-le (suc w) n h p = elim (dec_lt 0 (n / 2)) [
  | yes q ↦ ground (arith, pow-two-suc w, pow-two-suc (len w (n / 2)), pow-len-le w (n / 2))
  | no q ↦ let half : n / 2 ≡ 0 = omega arith in rw half (ground (arith, len-zero w))
]

-- `len32` of a number from 1 to 2 ^ 31 - 1: its power of two is above the number, by at most twice.
pub len32_bounds :
    (n : ℕ) → 0 < n → n < 2 ^ 31 → (len32 n ≤ 31) × (n < 2 ^ len32 n) × (2 ^ len32 n ≤ 2 * n)
unfolding len32
len32_bounds n p h = (
  len_least 32 n 31 (omega arith) h,
  (len_bounds 32 n (omega arith)).0,
  pow-len-le 32 n (omega arith) p,
)

pub len32_top : (n : ℕ) → 2 ^ 31 ≤ n → n < 2 ^ 32 → len32 n ≡ 32
unfolding len32
len32_top n lo hi =
    let (above, most) = len_bounds 32 n hi in omega (arith, exponent-lt 31 (len 32 n) (omega arith))
