-- ===== src/Config/Accepts.antt =====
-- What `validate` accepts, independently of how it tests it.
use native.Mathlib.Nat.{div-add-mod, mul-mod_left}
use ublk_go.Prelude.{ℕ, ◌*◌, ◌/◌, ◌%◌, ◌^◌, ◌≤◌, ◌<◌, ◌≡◌, ◌↔◌, none, arith, ap, dec_lt}
use ublk_go.Go.Bits.{ones_count32, trailing_zeros32}
use ublk_go.Go.Bits.Laws.{ones_count32-eq-one, ones_count32-pow, pow-two-le, exponent-lt}
use ublk_go.Config.{Config, max_queue_depth, max_max_io_size, validate}

-- A power of two from 512 on.
abbrev pub IsBlockSize : ℕ → Type 0
IsBlockSize b = (k : ℕ) × (9 ≤ k) × (b ≡ 2 ^ k)

abbrev pub IsMultiple : ℕ → ℕ → Type 0
IsMultiple b n = (m : ℕ) × (0 < m) × (n ≡ m * b)

-- The documented limits: the device and the largest request are positive numbers of blocks.
pub record Accepts (c : Config) (size : ℕ) : Type 0 where
  pub block : IsBlockSize c.block_size
  pub blocks : IsMultiple c.block_size size
  pub depth : (1 ≤ c.queue_depth) × (c.queue_depth ≤ max_queue_depth)
  pub request : IsMultiple c.block_size c.max_io_size
  pub capped : c.max_io_size ≤ max_max_io_size

-- The bounds that the types of the fields give.
pub record IsTyped (c : Config) (size : ℕ) : Type 0 where
  pub block_typed : c.block_size < 2 ^ 32
  pub depth_typed : c.queue_depth < 2 ^ 16
  pub request_typed : c.max_io_size < 2 ^ 32
  pub size_typed : size < 2 ^ 64

zero_of_not_pos : (n : ℕ) → ¬ (0 < n) → n ≡ 0
zero_of_not_pos n h = omega arith

IsMultiple-of_mod : (b n : ℕ) → 0 < n → n % b ≡ 0 → IsMultiple b n
IsMultiple-of_mod b n h e = (n / b, quotient_pos, exact)
  where
    exact : n ≡ n / b * b
    exact = omega (arith, div-add-mod n b)

    quotient_pos : 0 < n / b
    quotient_pos = elim (dec_lt 0 (n / b)) [
      | yes p ↦ p
      | no p ↦ absurd (omega (arith, exact, ap (λ (q : ℕ). q * b) (zero_of_not_pos (n / b) p)))
    ]

mod_of_multiple : (b n : ℕ) → IsMultiple b n → n % b ≡ 0
mod_of_multiple b n (m, h, e) = rw e (mul-mod_left m b)

pos_of_multiple : (b n : ℕ) → 0 < b → IsMultiple b n → 0 < n
pos_of_multiple b n hb (m, h, e) = rw e (grind arith)

block_of_ones_count : (b : ℕ) → b < 2 ^ 32 → 512 ≤ b → ones_count32 b ≡ 1 → IsBlockSize b
block_of_ones_count b h low e =
    let (eq, lt) = ones_count32-eq-one b h e in
    (trailing_zeros32 b, omega (arith, exponent-lt 8 (trailing_zeros32 b) (omega arith)), eq)

ones_count_of_block : (b : ℕ) → b < 2 ^ 32 → IsBlockSize b → (512 ≤ b) × (ones_count32 b ≡ 1)
ones_count_of_block b h (k, low, e) =
    (omega (arith, pow-two-le 9 k low), rw e (ones_count32-pow k (omega arith)))

validate_sound : (c : Config) (size : ℕ) → IsTyped c size → validate c size ≡ none → Accepts c size
unfolding validate
validate_sound c size t e = record {
  block = block_of_ones_count c.block_size t.block_typed (ground arith) (ground arith);
  blocks = IsMultiple-of_mod c.block_size size (ground arith) (ground arith);
  depth = ground arith;
  request = IsMultiple-of_mod c.block_size c.max_io_size (ground arith) (ground arith);
  capped = ground arith;
}

validate_complete :
    (c : Config) (size : ℕ) → IsTyped c size → Accepts c size → validate c size ≡ none
unfolding validate
validate_complete c size t a =
    let (low, one) = ones_count_of_block c.block_size t.block_typed a.block in
    ground (
      arith,
      one,
      low,
      mod_of_multiple c.block_size size a.blocks,
      mod_of_multiple c.block_size c.max_io_size a.request,
      pos_of_multiple c.block_size size (omega arith) a.blocks,
      pos_of_multiple c.block_size c.max_io_size (omega arith) a.request,
    )

-- `validate` returns no error exactly when the block size is a power of two from 512 on, the size
-- and the largest request are positive multiples of it, the queue depth is from 1 to 4096 and the
-- request is at most 1 MiB; for all values that the types of the fields allow.
pub validate-Accepts :
    (c : Config) (size : ℕ) → IsTyped c size → (validate c size ≡ none) ↔ Accepts c size
validate-Accepts c size t = (validate_sound c size t, validate_complete c size t)

multiple_le : (b n : ℕ) → IsMultiple b n → b ≤ n
multiple_le b n (m, h, e) = rw e (grind arith)

-- An accepted block is at most 1 MiB.
pub block_le_cap : {c : Config} {size : ℕ} → Accepts c size → c.block_size ≤ max_max_io_size
block_le_cap {c} a = omega (arith, multiple_le c.block_size c.max_io_size a.request)
