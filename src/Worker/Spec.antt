-- ===== src/Worker/Spec.antt =====
-- What a block device promises for one request, as a function of its bytes: an independent
-- description of `handleIO` of ublk/worker.go.
use ublk_go.Prelude.{
  ℕ, ◌+◌, ◌*◌, ◌^◌, ◌≤◌, ◌<◌, ◌≡◌, ◌≢◌, ◌⊎◌, Bool, true, false, List, Option, none, some, ◌==◌, ltb,
  if◌then◌else◌, bit_and, length, replicate,
}
use ublk_go.Prelude.Int.{ℤ, pos, neg}
use ublk_go.Prelude.Memory.{stretch, overwrite}
use ublk_go.Types.{IoDesc, op_read, op_write, op_discard, op_write_zeroes}
use ublk_go.Storage.{Backend, Reply}
use ublk_go.Worker.{eio, eopnotsupp}
use ublk_go.Worker.Disk.{IsDisk, NoEof}

abbrev pub op_of : IoDesc → ℕ
op_of desc = bit_and desc.op_flags 0xFF

abbrev pub start_of : IoDesc → ℕ
start_of desc = desc.start_sector * 512

abbrev pub long_of : IoDesc → ℕ
long_of desc = desc.nr_sectors * 512

-- The answer, what the request's buffer then holds, and the bytes of the device.
pub record Outcome : Type 0 where
  pub answer : ℤ
  pub held : List ℕ
  pub bytes : List ℕ

abbrev pub refused : ℕ → List ℕ → List ℕ → Outcome
refused e held m = record { answer = neg e; held = held; bytes = m }

-- A request for `n` bytes that go through a buffer of `cap`: none is asked for, too many are, or
-- `done` is made of it.
abbrev pub buffered : ℕ → ℕ → List ℕ → List ℕ → Outcome → Outcome
buffered cap n held m done =
    if n == 0
    then record { answer = pos 0; held = held; bytes = m }
    else if ltb cap n
    then refused eio held m
    else done

abbrev pub read_outcome : ℕ → ℕ → ℕ → List ℕ → List ℕ → Outcome
read_outcome cap o n held m =
    buffered cap n held m (record { answer = pos n; held = stretch o n m; bytes = m })

abbrev pub write_outcome : ℕ → ℕ → ℕ → List ℕ → List ℕ → Outcome
write_outcome cap o n held m =
    buffered cap n held m (record { answer = pos n; held = held; bytes = overwrite o n held m })

abbrev pub zero_outcome : Bool → ℕ → ℕ → List ℕ → List ℕ → Outcome
zero_outcome can_zero o n held m =
    if can_zero
    then record {
      answer = pos n;
      held = held;
      bytes = if n == 0 then m else overwrite o n (replicate n 0) m;
    }
    else refused eopnotsupp held m

-- One request on the bytes `m`, with `held` in the first bytes of its buffer.
abbrev pub disk_step : ℕ → Bool → IoDesc → List ℕ → List ℕ → Outcome
disk_step cap can_zero desc held m =
    let op = op_of desc in
    if op == op_read
    then read_outcome cap (start_of desc) (long_of desc) held m
    else if op == op_write
    then write_outcome cap (start_of desc) (long_of desc) held m
    else if op == op_write_zeroes
    then zero_outcome can_zero (start_of desc) (long_of desc) held m
    else refused eopnotsupp held m

abbrev pub is_some : {A : Type 0} → Option A → Bool
is_some none = false
is_some (some _) = true

-- `WriteZeroesAt` of a backend that has it: the range then reads as zeros.
pub record IsZeroing {S : Type 0} (b : Backend S) (size : ℕ) (d : IsDisk b size) : Type 0 where
  pub zeroes :
      (z : ℤ → ℤ → ℕ → S → Reply S) (n o f : ℕ) (s : S)
      → b.zeroer ≡ some z
      → length (d.content s) ≡ size
      → o + n ≤ size
      → let r = z (pos o) (pos n) f s in
        (r.count ≡ pos n)
        × (r.failed ≡ false)
        × (d.content r.after ≡ overwrite o n (replicate n 0) (d.content s))

-- A request that stays inside the device, and does not read up to its end if io.EOF may come there. After a discard the range is undefined, so that there is none
-- unless the backend does not support it.
pub record Allowed {S : Type 0} (b : Backend S) (size : ℕ) (d : IsDisk b size) (desc : IoDesc)
    : Type 0 where
  pub inside : (long_of desc ≡ 0) ⊎ (start_of desc + long_of desc ≤ size)
  pub clean : (op_of desc ≢ op_read) ⊎ NoEof b size d (start_of desc) (long_of desc)
  pub addressed : start_of desc < 2 ^ 63
  pub small : long_of desc < 2 ^ 31
  pub undiscarded : (op_of desc ≢ op_discard) ⊎ (b.discarder ≡ none)
