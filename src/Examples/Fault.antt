-- ===== src/Examples/Fault.antt =====
-- The backend of example/fault/main.go, which fails some of its calls.
use ublk_go.Prelude.{ℕ, ◌+◌, ◌*◌, List, Option, some, length, replicate}
use ublk_go.Prelude.Int.{ℤ}
use ublk_go.Storage.{Reply, ReadReply}
use ublk_go.Examples.{PartialBackend, ◌>>=◌, copy_out, copy_in, transferred}
use ublk_go.Prelude.Int.{pos}
use ublk_go.Prelude.{true, [], ltb, if◌then◌else◌}

abbrev pub dev_size : ℕ
dev_size = 16 * 1024 * 1024

abbrev pub blk_size : ℕ
blk_size = 4096

-- The rates are in parts per million. `draws` counts the calls of the random generator.
pub record FaultyBackend : Type 0 where
  pub bytes : List ℕ
  pub read_fail : ℕ
  pub write_fail : ℕ
  pub reads : ℕ
  pub writes : ℕ
  pub read_errs : ℕ
  pub write_errs : ℕ
  pub draws : ℕ

abbrev pub new_faulty : FaultyBackend
new_faulty = record {
  bytes = replicate dev_size 0;
  read_fail = 0;
  write_fail = 0;
  reads = 0;
  writes = 0;
  read_errs = 0;
  write_errs = 0;
  draws = 0;
}

-- The calls once the generator has been asked.
unfoldable pub good_read : ℕ → ℤ → FaultyBackend → Option (ReadReply FaultyBackend)
good_read n off b = do
  p ← copy_out b.bytes off n
  some (record { reply = transferred n b; filled = p })

unfoldable pub good_write : List ℕ → ℤ → FaultyBackend → Option (Reply FaultyBackend)
good_write p off b = do
  bytes' ← copy_in b.bytes p off
  some (transferred (length p) (record b { bytes = bytes' }))

-- `rand i` is the number below 1,000,000 that the call `i` of `rand.Uint64N` returns.
module _ (rand : ℕ → ℕ) where
  unfoldable pub read_at : ℕ → ℤ → FaultyBackend → Option (ReadReply FaultyBackend)
  read_at n off b =
      let b' : FaultyBackend = record b { reads = b.reads + 1; draws = b.draws + 1 } in
      let good = good_read n off b' in
      if ltb (rand b.draws) b.read_fail
      then some (record {
        reply = record {
          count = pos 0;
          failed = true;
          after = record b' { read_errs = b.read_errs + 1 };
        };
        filled = [];
      })
      else good

  unfoldable pub write_at : List ℕ → ℤ → FaultyBackend → Option (Reply FaultyBackend)
  write_at p off b =
      let b' : FaultyBackend = record b { writes = b.writes + 1; draws = b.draws + 1 } in
      let good = good_write p off b' in
      if ltb (rand b.draws) b.write_fail
      then some (record {
        count = pos 0;
        failed = true;
        after = record b' { write_errs = b.write_errs + 1 };
      })
      else good

  abbrev pub backend : PartialBackend FaultyBackend
  backend = record { read_at = read_at; write_at = write_at }
