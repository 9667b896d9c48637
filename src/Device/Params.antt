-- ===== src/Device/Params.antt =====
-- The parameters that `setParams` of ublk/device.go describes the device by.
pub mod Describes
use ublk_go.Prelude.{ℕ, ◌/◌, ◌^◌, Bool, ◌||◌, bit_or, if◌then◌else◌, replicate}
use ublk_go.Go.Bits.{trailing_zeros32}
use ublk_go.Go.Words.{u8}
use ublk_go.Config.{Config}
use ublk_go.Types.{
  UblkParams, ParamBasic, ParamDiscard, ParamDevt, ParamZoned, param_type_basic, param_type_discard,
}

-- `unsafe.Sizeof(ublkParams{})`: 108 bytes of fields, rounded up to the alignment of 8.
abbrev pub sizeof_ublk_params : ℕ
sizeof_ublk_params = 112

-- `maxSect`
abbrev pub max_sect : ℕ
max_sect = 2 ^ 21

abbrev no_discard : ParamDiscard
no_discard = record {
  discard_alignment = 0;
  discard_granularity = 0;
  max_discard_sectors = 0;
  max_write_zeroes_sectors = 0;
  max_discard_segments = 0;
  reserved0 = 0;
}

abbrev no_devt : ParamDevt
no_devt = record { char_major = 0; char_minor = 0; disk_major = 0; disk_minor = 0 }

abbrev no_zoned : ParamZoned
no_zoned = record {
  max_open_zones = 0;
  max_active_zones = 0;
  max_zone_append_sectors = 0;
  reserved = replicate 20 0;
}

-- By the size, the configuration, the largest request in sectors and the backend's capabilities.
unfoldable pub device_params : ℕ → Config → ℕ → Bool → Bool → UblkParams
device_params size cfg max_sectors has_discarder has_zeroer =
    let bs_shift = u8 (trailing_zeros32 cfg.block_size) in
    let any = has_discarder || has_zeroer in
    record {
      len = sizeof_ublk_params;
      types = if any then bit_or param_type_basic param_type_discard else param_type_basic;
      basic = record {
        attrs = 0;
        logical_bs_shift = bs_shift;
        physical_bs_shift = bs_shift;
        io_opt_shift = bs_shift;
        io_min_shift = bs_shift;
        max_sectors = max_sectors;
        chunk_sectors = 0;
        dev_sectors = size / 512;
        virt_boundary_mask = 0;
      };
      discard =
          if any
          then record {
            discard_alignment = 0;
            discard_granularity = cfg.block_size;
            max_discard_sectors = if has_discarder then max_sect else 0;
            max_write_zeroes_sectors = if has_zeroer then max_sect else 0;
            max_discard_segments = 1;
            reserved0 = 0;
          }
          else no_discard;
      devt = no_devt;
      zoned = no_zoned;
    }
