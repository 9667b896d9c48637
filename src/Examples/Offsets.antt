-- ===== src/Examples/Offsets.antt =====
-- Where the programs under example/ read and write, and the buffers that they use for it.
use native.Mathlib.Nat.{mod-lt}
use ublk_go.Prelude.{ℕ, ◌+◌, ◌-◌, ◌*◌, ◌/◌, ◌%◌, ◌≤◌, ◌<◌, ◌≡◌, arith, ◌==◌, if◌then◌else◌}
use ublk_go.Worker.Buffers.{align_offset}
use ublk_go.Examples.Fault as Fault
use ublk_go.Examples.Stress as Stress
use ublk_go.Examples.Runs.Faults.{low_rate_offset}

-- `off` of `alignedBuf` in example/chain/main.go, for an allocation at `addr`.
unfoldable pub aligned_buf_off : ℕ → ℕ
aligned_buf_off addr = let off = 4096 - addr % 4096 in if off == 4096 then 0 else off

-- `off` of `alignedBlock` in example/fault/main.go.
unfoldable pub aligned_block_off : ℕ → ℕ
aligned_block_off addr = let off = 4096 - addr % 4096 in if off == 4096 then 0 else off

-- `randOffset` of example/stress/main.go, by what `rand.Int` returns for each bound.
unfoldable pub rand_offset : (ℕ → ℕ) → ℕ → ℕ
rand_offset rand_int max_off = rand_int (max_off / Stress.blk_size) * Stress.blk_size

-- `jitter`.
unfoldable pub jitter : (ℕ → ℕ) → ℕ → ℕ → ℕ
jitter rand_int min_d max_d = min_d + rand_int (max_d - min_d)

-- What is documented of `rand.Int`: for a positive bound it returns a number below it.
abbrev pub Draws : (ℕ → ℕ) → Type 0
Draws rand_int = (bound : ℕ) → 0 < bound → rand_int bound < bound

-- `alignedBuf` and `alignedBlock` skip as many bytes as `alignedAlloc` of ublk/worker.go does for an
-- alignment of 4096, at every address of the allocation.
pub aligned_same :
    (addr : ℕ)
    → (aligned_buf_off addr ≡ align_offset addr 4096)
      × (aligned_block_off addr ≡ align_offset addr 4096)
unfolding aligned_buf_off aligned_block_off
aligned_same addr = (ground (arith, mod-lt addr), ground (arith, mod-lt addr))

-- Every write of `lowRate` and every one at an offset that `randOffset` draws, with the bound that the
-- writers pass, stays inside the device, and starts at a multiple of the block size; and `jitter` keeps
-- to its range, if `rand.Int` keeps below its bound.
pub offsets_inside :
    (rand_int : ℕ → ℕ) (i min_d max_d : ℕ)
    → Draws rand_int
    → min_d < max_d
    → (low_rate_offset i + Fault.blk_size ≤ Fault.dev_size)
      × (low_rate_offset i % Fault.blk_size ≡ 0)
      × (rand_offset rand_int (Stress.dev_size - Stress.blk_size) + Stress.blk_size
          ≤ Stress.dev_size)
      × (rand_offset rand_int (Stress.dev_size - Stress.blk_size) % Stress.blk_size ≡ 0)
      × (min_d ≤ jitter rand_int min_d max_d)
      × (jitter rand_int min_d max_d < max_d)
unfolding rand_offset jitter
offsets_inside rand_int i min_d max_d draws less =
    let low = draws 511 (omega arith) in
    let extra = draws (max_d - min_d) (omega (arith, less)) in
    (
      omega arith,
      omega arith,
      omega (arith, low),
      omega arith,
      omega arith,
      omega (arith, extra, less),
    )
