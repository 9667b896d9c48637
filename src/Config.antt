-- ===== src/Config.antt =====
-- ublk/ublk.go: the options of `New` and their validation.
pub mod Accepts
use ublk_go.Prelude.{
  ℕ, ◌%◌, ◌^◌, Bool, ◌||◌, not, Option, none, some, List, [], ◌∷◌, ltb, ◌==◌, if◌then◌else◌,
}
use ublk_go.Go.Bits.{ones_count32}

pub record Config : Type 0 where
  pub block_size : ℕ  -- uint32
  pub queue_depth : ℕ  -- uint16
  pub max_io_size : ℕ  -- uint32

-- `maxQueueDepth` of types.go
abbrev pub max_queue_depth : ℕ
max_queue_depth = 4096

abbrev pub default_block_size : ℕ
default_block_size = 512

abbrev pub default_queue_depth : ℕ
default_queue_depth = 128

abbrev pub default_max_io_size : ℕ
default_max_io_size = 131072

abbrev pub max_max_io_size : ℕ
max_max_io_size = 2 ^ 20

abbrev pub default_config : Config
default_config = record {
  block_size = default_block_size;
  queue_depth = default_queue_depth;
  max_io_size = default_max_io_size;
}

-- `type Option func(*config)`: the three that the package gives.
pub data ConfigOption : Type 0 where
  with_block_size : ℕ → ConfigOption
  with_queue_depth : ℕ → ConfigOption
  with_max_io_size : ℕ → ConfigOption

unfoldable pub apply_option : ConfigOption → Config → Config
apply_option (with_block_size bs) c = record c { block_size = bs }
apply_option (with_queue_depth d) c = record c { queue_depth = d }
apply_option (with_max_io_size n) c = record c { max_io_size = n }

-- The loop of `New` over its options.
unfoldable pub apply_options : List ConfigOption → Config → Config
unfolding apply_option
apply_options [] c = c
apply_options (o ∷ os) c = apply_options os (apply_option o c)

-- The errors of `validate`, in the order of its tests.
pub data ConfigError : Type 0 where
  zero_size : ConfigError
  bad_block_size : ConfigError
  unaligned_size : ConfigError
  bad_queue_depth : ConfigError
  bad_max_io_size : ConfigError
  max_io_size_above_cap : ConfigError

-- `none` is the nil error.
unfoldable pub validate : Config → ℕ → Option ConfigError
validate c size =
    if size == 0
    then some zero_size
    else if ltb c.block_size 512 || not (ones_count32 c.block_size == 1)
    then some bad_block_size
    else if not (size % c.block_size == 0)
    then some unaligned_size
    else if ltb c.queue_depth 1 || ltb max_queue_depth c.queue_depth
    then some bad_queue_depth
    else if c.max_io_size == 0 || not (c.max_io_size % c.block_size == 0)
    then some bad_max_io_size
    else if ltb max_max_io_size c.max_io_size
    then some max_io_size_above_cap
    else none
