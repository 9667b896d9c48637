-- ===== src/Examples/Fsdemo.antt =====
-- The backend of example/fsdemo/main.go, which counts its calls and their bytes. What it prints of
-- a call if it is verbose is left out.
use ublk_go.Prelude.{ℕ, ◌+◌, ◌*◌, List, Option, some, length}
use ublk_go.Prelude.Int.{ℤ}
use ublk_go.Storage.{Reply, ReadReply}
use ublk_go.Examples.{PartialBackend, ◌>>=◌, copy_out, copy_in, transferred}

abbrev pub dev_size : ℕ
dev_size = 64 * 1024 * 1024

pub record LoggingBackend : Type 0 where
  pub bytes : List ℕ
  pub reads : ℕ
  pub writes : ℕ
  pub read_bytes : ℕ
  pub write_bytes : ℕ

unfoldable pub read_at : ℕ → ℤ → LoggingBackend → Option (ReadReply LoggingBackend)
read_at n off b = do
  p ← copy_out b.bytes off n
  some (record {
    reply = transferred n (record b { reads = b.reads + 1; read_bytes = b.read_bytes + n });
    filled = p;
  })

unfoldable pub write_at : List ℕ → ℤ → LoggingBackend → Option (Reply LoggingBackend)
write_at p off b = do
  bytes' ← copy_in b.bytes p off
  some (
      transferred (length p) (record b {
        writes = b.writes + 1;
        write_bytes = b.write_bytes + length p;
        bytes = bytes';
      }))

abbrev pub backend : PartialBackend LoggingBackend
backend = record { read_at = read_at; write_at = write_at }
