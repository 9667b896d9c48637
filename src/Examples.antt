-- ===== src/Examples.antt =====
-- The programs under example/: their backends, what they measure, and what they do with devices.
pub mod Contract
pub mod Main
pub mod Sigkill
pub mod Stress
pub mod Chain
pub mod Fsdemo
pub mod Fault
pub mod Flushbench
pub mod Announce
pub mod Backends
pub mod Samples
pub mod Failing
pub mod Runs
pub mod Offsets
use ublk_go.Prelude.{ℕ, ◌+◌, ◌^◌, ◌≡◌, List, Option, none, some, length, leb, false, if◌then◌else◌}
use ublk_go.Prelude.Int.{ℤ, pos, negsuc}
use ublk_go.Prelude.Memory.{stretch, overwrite}
use ublk_go.Storage.{Reply, ReadReply}

infixl 5 ◌>>=◌
abbrev pub ◌>>=◌ {ℓ κ} : {A : Type ℓ} {B : Type κ} → Option A → (A → Option B) → Option B
none >>= f = none
some a >>= f = f a

-- A backend whose methods may panic, which is `none`. `read_at` is given the length of `p`.
pub record PartialBackend (S : Type 0) : Type 0 where
  pub read_at : ℕ → ℤ → S → Option (ReadReply S)
  pub write_at : List ℕ → ℤ → S → Option (Reply S)

-- `data[off:off+int64(n)]` of a slice that is as long as its capacity: where it starts. The sum
-- does not wrap before it passes the end of anything that fits in memory.
unfoldable pub range_of : List ℕ → ℤ → ℕ → Option ℕ
range_of bytes (negsuc o) n = none
range_of bytes (pos o) n = if leb (o + n) (length bytes) then some o else none

-- `copy(p, data[off:off+int64(len(p))])`: what is put into `p`.
unfoldable pub copy_out : List ℕ → ℤ → ℕ → Option (List ℕ)
copy_out bytes off n = do o ← range_of bytes off n; some (stretch o n bytes)

-- `copy(data[off:off+int64(len(p))], p)`: the data afterwards.
unfoldable pub copy_in : List ℕ → List ℕ → ℤ → Option (List ℕ)
copy_in bytes p off = do o ← range_of bytes off (length p); some (overwrite o (length p) p bytes)

-- A call that transferred `n` bytes without an error.
abbrev pub transferred : {S : Type 0} → ℕ → S → Reply S
transferred n s = record { count = pos n; failed = false; after = s }
