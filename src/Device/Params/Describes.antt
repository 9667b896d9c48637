-- ===== src/Device/Params/Describes.antt =====
-- For a configuration that `validate` accepts, the parameters describe the device exactly.
use native.Mathlib.Nat.{mul_assoc}
use ublk_go.Prelude.{
  ◌||◌, ◌⊎◌, inl, inr, ℕ, zero, suc, ◌+◌, ◌-◌, ◌*◌, ◌/◌, ◌^◌, ◌<◌, ◌≡◌, ◌∙◌, subst, sym, ap, refl,
  Bool, true, false, none, arith, if◌then◌else◌,
}
use ublk_go.Go.Words.{u8}
use ublk_go.Go.Bits.{trailing_zeros32, ones_count32}
use ublk_go.Go.Bits.Laws.{pow-two-suc, ones_count32-eq-one, ones_count32-pow}
use ublk_go.Config.{Config, validate}
use ublk_go.Config.Accepts.{IsBlockSize, IsMultiple, IsTyped, validate-Accepts}
use ublk_go.Device.Params.{device_params}

pow_plus_nine : (j : ℕ) → 2 ^ (j + 9) ≡ 2 ^ j * 512
pow_plus_nine zero = omega arith
pow_plus_nine (suc j) =
    let shifted : suc j + 9 ≡ suc (j + 9) = omega arith in
    ap (λ (n : ℕ). 2 ^ n) shifted
    ∙ omega (arith, pow-two-suc (j + 9), pow-two-suc j, pow_plus_nine j)

-- A block size is a whole number of sectors.
sectors_of_block : (b : ℕ) → IsBlockSize b → (q : ℕ) × (b ≡ q * 512)
sectors_of_block b (k, low, e) =
    (2 ^ (k - 9), e ∙ ap (λ (n : ℕ). 2 ^ n) (omega arith) ∙ pow_plus_nine (k - 9))

whole_sectors : (b n : ℕ) → IsBlockSize b → IsMultiple b n → n / 512 * 512 ≡ n
whole_sectors b n is (m, some_blocks, e) =
    let (q, eb) = sectors_of_block b is in
    let whole : n ≡ (m * q) * 512 = e ∙ ap (λ (x : ℕ). m * x) eb ∙ sym (mul_assoc m q 512) in
    omega (arith, whole)

shift_of_block : (b : ℕ) → b < 2 ^ 32 → IsBlockSize b → 2 ^ u8 (trailing_zeros32 b) ≡ b
shift_of_block b typed (k, low, e) =
    let one : ones_count32 b ≡ 1 =
      ap ones_count32 e ∙ ones_count32-pow k (subst (λ (n : ℕ). n < 2 ^ 32) e typed) in
    let (pow, small) = ones_count32-eq-one b typed one in
    ap (λ (n : ℕ). 2 ^ n) (omega (arith, small)) ∙ sym pow

-- What is advertised for each pair of capabilities.
advertised :
    (size : ℕ) (cfg : Config) (max_sectors : ℕ) (discarder zeroer : Bool)
    → let p = device_params size cfg max_sectors discarder zeroer in
      (p.discard.max_discard_sectors ≡ (if discarder then 2 ^ 21 else 0))
      × (p.discard.max_write_zeroes_sectors ≡ (if zeroer then 2 ^ 21 else 0))
      × (p.types ≡ (if discarder || zeroer then 3 else 1))
      × ((discarder || zeroer ≡ false)
          ⊎ ((p.discard.discard_granularity ≡ cfg.block_size)
              × (p.discard.max_discard_segments ≡ 1)))
unfolding device_params
advertised size cfg max_sectors true zeroer = (refl, refl, refl, inr (refl, refl))
advertised size cfg max_sectors false true = (refl, refl, refl, inr (refl, refl))
advertised size cfg max_sectors false false = (refl, refl, refl, inl refl)

-- For an accepted configuration and a size, in the ranges of their types, the block size is two to
-- the shift that `setParams` passes on, the sectors are exactly the size, and a discard or a
-- zeroing of up to 2^21 sectors is advertised if the backend can do it, and of none if not. The types
-- name the basic parameters, and beside them exactly those of discarding if the backend can do either,
-- which then are of one segment and as fine as a block.
pub device_params-describes :
    (size : ℕ) (cfg : Config) (max_sectors : ℕ) (discarder zeroer : Bool)
    → IsTyped cfg size
    → validate cfg size ≡ none
    → let p = device_params size cfg max_sectors discarder zeroer in
      (2 ^ p.basic.logical_bs_shift ≡ cfg.block_size)
      × (p.basic.dev_sectors * 512 ≡ size)
      × (p.discard.max_discard_sectors ≡ (if discarder then 2 ^ 21 else 0))
      × (p.discard.max_write_zeroes_sectors ≡ (if zeroer then 2 ^ 21 else 0))
      × (p.types ≡ (if discarder || zeroer then 3 else 1))
      × ((discarder || zeroer ≡ false)
          ⊎ ((p.discard.discard_granularity ≡ cfg.block_size)
              × (p.discard.max_discard_segments ≡ 1)))
unfolding device_params
device_params-describes size cfg max_sectors discarder zeroer t valid =
    let a = (validate-Accepts cfg size t).0 valid in
    let ad = advertised size cfg max_sectors discarder zeroer in
    (
      shift_of_block cfg.block_size t.block_typed a.block,
      whole_sectors cfg.block_size size a.block a.blocks,
      ad.0,
      ad.1,
      ad.2,
      ad.3,
    )
