-- ===== src/Tests/Configs.antt =====
-- ublk/ublk.go and the arithmetic below it, at concrete values.
use ublk_go.Prelude.{
  ◌⊎◌, ℕ, ◌+◌, ◌*◌, ◌^◌, ◌≤◌, ◌<◌, ◌≡◌, ◌↔◌, refl, true, false, some, none, [], ◌∷◌, arith,
}
use ublk_go.Go.Bits.{ones_count, len, ones_count32, len32}
use ublk_go.Config.{
  default_config, with_block_size, with_queue_depth, with_max_io_size, apply_options, validate,
  zero_size, bad_block_size, unaligned_size, bad_queue_depth, bad_max_io_size,
  max_io_size_above_cap,
}
use ublk_go.Config.Accepts.{Accepts, validate-Accepts}
use ublk_go.Device.Params.{device_params}
use ublk_go.Device.Params.Describes.{device_params-describes}
use ublk_go.Uring.Round.{round_up2, round_up2_least}

-- The cases of TestNewValidation.
rejected :
    (validate default_config 0 ≡ some zero_size)
    × (validate default_config 1000 ≡ some unaligned_size)
    × (validate (apply_options (with_block_size 256 ∷ []) default_config) 4096
        ≡ some bad_block_size)
    × (validate (apply_options (with_block_size 1536 ∷ []) default_config) 4096
        ≡ some bad_block_size)
    × (validate (apply_options (with_queue_depth 4097 ∷ []) default_config) 4096
        ≡ some bad_queue_depth)
    × (validate
          (apply_options (with_block_size 4096 ∷ with_max_io_size 5000 ∷ []) default_config)
          (2 ^ 20)
        ≡ some bad_max_io_size)
    × (validate (apply_options (with_max_io_size (2 ^ 20 + 512) ∷ []) default_config) (2 ^ 21)
        ≡ some max_io_size_above_cap)
unfolding validate apply_options ones_count32 ones_count
rejected = (refl, refl, refl, refl, refl, refl, refl)

accepted : validate default_config 4096 ≡ none
unfolding validate ones_count32 ones_count
accepted = refl

validate-Accepts_example : (validate default_config 4096 ≡ none) ↔ Accepts default_config 4096
validate-Accepts_example = validate-Accepts default_config 4096 (omega arith)

device_params-describes_example :
    let p = device_params 4096 default_config 1024 true false in
    (2 ^ p.basic.logical_bs_shift ≡ default_config.block_size)
    × (p.basic.dev_sectors * 512 ≡ 4096)
    × (p.discard.max_discard_sectors ≡ 2 ^ 21)
    × (p.discard.max_write_zeroes_sectors ≡ 0)
    × (p.types ≡ 3)
    × ((true ≡ false)
        ⊎ ((p.discard.discard_granularity ≡ default_config.block_size)
            × (p.discard.max_discard_segments ≡ 1)))
device_params-describes_example =
    device_params-describes 4096 default_config 1024 true false (omega arith) accepted

-- The cases of TestRoundUp2.
rounded :
    (round_up2 0 ≡ 1)
    × (round_up2 1 ≡ 1)
    × (round_up2 2 ≡ 2)
    × (round_up2 3 ≡ 4)
    × (round_up2 5 ≡ 8)
    × (round_up2 8 ≡ 8)
    × (round_up2 9 ≡ 16)
unfolding round_up2 len32 len
rounded = (refl, refl, refl, refl, refl, refl, refl)

round_up2_least_example :
    (k : ℕ) × (k ≤ 31) × (round_up2 100 ≡ 2 ^ k) × (100 ≤ round_up2 100) × (round_up2 100 < 2 * 100)
round_up2_least_example = round_up2_least 100 (omega arith) (omega arith)
