-- ===== src/Uring/Round.antt =====
-- `roundUp2`: the number of entries that a ring is set up with.
use ublk_go.Prelude.{ℕ, ◌-◌, ◌*◌, ◌%◌, ◌^◌, ◌≤◌, ◌<◌, ◌≡◌, arith, leb, if◌then◌else◌, dec_le}
use ublk_go.Go.Bits.{len32}
use ublk_go.Go.Bits.Laws.{pow-two-le, len32_bounds, len32_top}

-- `1 << n` in uint32 is 0 from n = 32 on.
unfoldable pub round_up2 : ℕ → ℕ
round_up2 v = if leb v 1 then 1 else 2 ^ len32 (v - 1) % 2 ^ 32

-- For 1 to 2 ^ 31 entries the result is a power of two, at least the argument, and below twice it.
pub round_up2_least :
    (v : ℕ)
    → 1 ≤ v
    → v ≤ 2 ^ 31
    → (k : ℕ) × (k ≤ 31) × (round_up2 v ≡ 2 ^ k) × (v ≤ round_up2 v) × (round_up2 v < 2 * v)
unfolding round_up2
round_up2_least v lo hi = elim (dec_le v 1) [
  | yes one ↦ (0, ground arith, ground arith, ground arith, ground arith)
  | no more ↦
      let (small, above, near) = len32_bounds (v - 1) (omega arith) (omega arith) in
      let fits : 2 ^ len32 (v - 1) ≤ 2 ^ 31 = pow-two-le (len32 (v - 1)) 31 small in
      (len32 (v - 1), small, ground arith, ground arith, ground arith)
]

-- Above 2 ^ 31 the shift leaves the word, and the result is 0.
pub round_up2_overflow : (v : ℕ) → 2 ^ 31 < v → v < 2 ^ 32 → round_up2 v ≡ 0
unfolding round_up2
round_up2_overflow v lo hi = rw (len32_top (v - 1) (omega arith) (omega arith)) (ground arith)
