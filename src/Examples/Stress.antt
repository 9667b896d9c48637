-- ===== src/Examples/Stress.antt =====
-- The backend of example/stress/main.go, which counts its calls.
use ublk_go.Prelude.{ℕ, ◌+◌, ◌*◌, List, Option, some, length, replicate}
use ublk_go.Prelude.Int.{ℤ}
use ublk_go.Storage.{Reply, ReadReply}
use ublk_go.Examples.{PartialBackend, ◌>>=◌, copy_out, copy_in, transferred}

abbrev pub dev_size : ℕ
dev_size = 2 * 1024 * 1024

abbrev pub blk_size : ℕ
blk_size = 4096

pub record MemBackend : Type 0 where
  pub bytes : List ℕ
  pub reads : ℕ
  pub writes : ℕ

abbrev pub new_mem_backend : MemBackend
new_mem_backend = record { bytes = replicate dev_size 0; reads = 0; writes = 0 }

unfoldable pub read_at : ℕ → ℤ → MemBackend → Option (ReadReply MemBackend)
read_at n off b = do
  p ← copy_out b.bytes off n
  some (record { reply = transferred n (record b { reads = b.reads + 1 }); filled = p })

unfoldable pub write_at : List ℕ → ℤ → MemBackend → Option (Reply MemBackend)
write_at p off b = do
  bytes' ← copy_in b.bytes p off
  some (transferred (length p) (record b { writes = b.writes + 1; bytes = bytes' }))

abbrev pub backend : PartialBackend MemBackend
backend = record { read_at = read_at; write_at = write_at }
