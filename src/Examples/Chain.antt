-- ===== src/Examples/Chain.antt =====
-- The two backends of example/chain/main.go: the storage in memory, and the proxy that forwards to a
-- descriptor.
use ublk_go.Prelude.{ℕ, ◌+◌, ◌*◌, List, Option, some, length}
use ublk_go.Prelude.Int.{ℤ}
use ublk_go.Storage.{Reply, ReadReply}
use ublk_go.Examples.{PartialBackend, ◌>>=◌, copy_out, copy_in, transferred}
use ublk_go.Prelude.{ltb, if◌then◌else◌}
use ublk_go.Storage.{Backend}

abbrev pub chain_size : ℕ
chain_size = 16 * 1024 * 1024

abbrev pub blk_size : ℕ
blk_size = 4096

pub record MemBackend : Type 0 where
  pub bytes : List ℕ
  pub reads : ℕ
  pub writes : ℕ
  pub read_bytes : ℕ
  pub write_bytes : ℕ

unfoldable pub read_at : ℕ → ℤ → MemBackend → Option (ReadReply MemBackend)
read_at n off b = do
  p ← copy_out b.bytes off n
  some (record {
    reply = transferred n (record b { reads = b.reads + 1; read_bytes = b.read_bytes + n });
    filled = p;
  })

unfoldable pub write_at : List ℕ → ℤ → MemBackend → Option (Reply MemBackend)
write_at p off b = do
  bytes' ← copy_in b.bytes p off
  some (
      transferred (length p) (record b {
        writes = b.writes + 1;
        write_bytes = b.write_bytes + length p;
        bytes = bytes';
      }))

abbrev pub backend : PartialBackend MemBackend
backend = record { read_at = read_at; write_at = write_at }

-- `slice`
unfoldable pub slice : ℤ → ℕ → MemBackend → Option (List ℕ)
slice off n b = copy_out b.bytes off n

-- What `unix.Pread` and `unix.Pwrite` return for the descriptor: the count, whether there is an
-- error, and the state of what the descriptor stands for.
pub record Descriptor (T : Type 0) : Type 0 where
  pub pread : ℕ → ℤ → T → ReadReply T
  pub pwrite : List ℕ → ℤ → T → Reply T

pub record FdBackend (T : Type 0) : Type 0 where
  pub target : T
  pub reads : ℕ
  pub writes : ℕ

abbrev pub with_target : {T : Type 0} → FdBackend T → T → FdBackend T
with_target f t = record f { target = t }

module _ {T : Type 0} (d : Descriptor T) where
  -- Both branches return the count that the call returned.
  unfoldable pub fd_read_at : ℕ → ℤ → FdBackend T → ReadReply (FdBackend T)
  fd_read_at n off f =
      let r = d.pread n off f.target in
      record {
        reply = record {
          count = r.reply.count;
          failed = r.reply.failed;
          after = record f { reads = f.reads + 1; target = r.reply.after };
        };
        filled = r.filled;
      }

  unfoldable pub fd_write_at : List ℕ → ℤ → FdBackend T → Reply (FdBackend T)
  fd_write_at p off f =
      let r = d.pwrite p off f.target in
      record {
        count = r.count;
        failed = r.failed;
        after = record f { writes = f.writes + 1; target = r.after };
      }

  abbrev pub fd_backend : Backend (FdBackend T)
  fd_backend = record {
    read_at = fd_read_at;
    write_at = fd_write_at;
    discarder = Option.none;
    zeroer = Option.none;
  }

-- The errors of `checkStats`.
pub data StatsError : Type 0 where
  lost_writes : StatsError
  lost_reads : StatsError

unfoldable pub check_stats : {T : Type 0} → FdBackend T → MemBackend → Option StatsError
check_stats proxy storage =
    if ltb storage.writes proxy.writes
    then some lost_writes
    else if ltb storage.reads proxy.reads
    then some lost_reads
    else Option.none
