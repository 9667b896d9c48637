-- ===== src/Examples/Backends.antt =====
-- The backends of the programs under example/ that keep their bytes in memory keep the contract that
-- the worker relies on, and the one that forwards to a descriptor keeps it if the descriptor does.
use ublk_go.Prelude.{inr, ℕ, ◌+◌, ◌*◌, ap, ◌≡◌, refl, ◌∙◌, List, none, some, length, arith}
use ublk_go.Prelude.Int.{pos}
use ublk_go.Prelude.Memory.{
  stretch, overwrite, length-stretch, length-overwrite, stretch-overwrite_self,
}
use ublk_go.Storage.{Backend}
use ublk_go.Types.{op_read, op_write}
use ublk_go.Worker.{Worker, handle_io}
use ublk_go.Worker.Valid.{IsValid}
use ublk_go.Worker.Disk.{IsDisk, IsEofless, Asks, pool_holds, handle_io_writes, handle_io_reads}
use ublk_go.Examples.Contract.{IsPartialDisk, Agrees, agreed_disk, copy_out-inside, copy_in-inside}
use ublk_go.Examples.Main as Main
use ublk_go.Examples.Sigkill as Sigkill
use ublk_go.Examples.Stress as Stress
use ublk_go.Examples.Chain as Chain
use ublk_go.Examples.Fsdemo as Fsdemo
use ublk_go.Examples.Flushbench as Flushbench

main_disk : (size : ℕ) → IsPartialDisk Main.backend (λ s. s) size
unfolding Main.read_at Main.write_at
main_disk size = record {
  reads = λ n o s full inside. (s, rw (copy_out-inside s o n (omega arith)) refl, refl);
  writes = λ n o bs s full long inside.
      (overwrite o n bs s, rw (copy_in-inside s bs o n long (omega arith), long) refl, refl);
}

sigkill_disk : (size : ℕ) → IsPartialDisk Sigkill.backend (λ s. s) size
unfolding Sigkill.read_at Sigkill.write_at
sigkill_disk size = record {
  reads = λ n o s full inside. (s, rw (copy_out-inside s o n (omega arith)) refl, refl);
  writes = λ n o bs s full long inside.
      (overwrite o n bs s, rw (copy_in-inside s bs o n long (omega arith), long) refl, refl);
}

stress_disk : (size : ℕ) → IsPartialDisk Stress.backend (λ b. b.bytes) size
unfolding Stress.read_at Stress.write_at
stress_disk size = record {
  reads = λ n o b full inside.
      (record b { reads = b.reads + 1 }, rw (copy_out-inside b.bytes o n (omega arith)) refl, refl);
  writes = λ n o bs b full long inside. (
    record b { writes = b.writes + 1; bytes = overwrite o n bs b.bytes },
    rw (copy_in-inside b.bytes bs o n long (omega arith), long) refl,
    refl,
  );
}

chain_disk : (size : ℕ) → IsPartialDisk Chain.backend (λ b. b.bytes) size
unfolding Chain.read_at Chain.write_at
chain_disk size = record {
  reads = λ n o b full inside. (
    record b { reads = b.reads + 1; read_bytes = b.read_bytes + n },
    rw (copy_out-inside b.bytes o n (omega arith)) refl,
    refl,
  );
  writes = λ n o bs b full long inside. (
    record b {
      writes = b.writes + 1;
      write_bytes = b.write_bytes + n;
      bytes = overwrite o n bs b.bytes;
    },
    rw (copy_in-inside b.bytes bs o n long (omega arith), long) refl,
    refl,
  );
}

fsdemo_disk : (size : ℕ) → IsPartialDisk Fsdemo.backend (λ b. b.bytes) size
unfolding Fsdemo.read_at Fsdemo.write_at
fsdemo_disk size = record {
  reads = λ n o b full inside. (
    record b { reads = b.reads + 1; read_bytes = b.read_bytes + n },
    rw (copy_out-inside b.bytes o n (omega arith)) refl,
    refl,
  );
  writes = λ n o bs b full long inside. (
    record b {
      writes = b.writes + 1;
      write_bytes = b.write_bytes + n;
      bytes = overwrite o n bs b.bytes;
    },
    rw (copy_in-inside b.bytes bs o n long (omega arith), long) refl,
    refl,
  );
}

flushbench_disk :
    (clock : ℕ → ℕ) (size : ℕ) → IsPartialDisk (Flushbench.backend clock) (λ b. b.bytes) size
unfolding Flushbench.read_at Flushbench.write_at Flushbench.push
flushbench_disk clock size = record {
  reads = λ n o b full inside. (
    Flushbench.push clock Flushbench.op_r (pos o) n (record b { reads = b.reads + 1 }),
    rw (copy_out-inside b.bytes o n (omega arith)) refl,
    refl,
  );
  writes = λ n o bs b full long inside. (
    record (Flushbench.push clock Flushbench.op_w (pos o) n (record b { writes = b.writes + 1 })) {
      bytes = overwrite o n bs b.bytes;
    },
    rw (copy_in-inside b.bytes bs o n long (omega arith), long) refl,
    refl,
  );
}

-- The backends, each at the size of its program's device.
abbrev pub BackendsKeep : (ℕ → ℕ) → Type 0
BackendsKeep clock =
    IsPartialDisk Main.backend (λ s. s) Main.size
    × IsPartialDisk Sigkill.backend (λ s. s) Sigkill.dev_size
    × IsPartialDisk Stress.backend (λ b. b.bytes) Stress.dev_size
    × IsPartialDisk Chain.backend (λ b. b.bytes) Chain.chain_size
    × IsPartialDisk Fsdemo.backend (λ b. b.bytes) Fsdemo.dev_size
    × IsPartialDisk (Flushbench.backend clock) (λ b. b.bytes) Flushbench.dev_size

-- Each backend of a program under example/ that keeps its bytes in memory and fails no call on
-- purpose keeps the contract at the size of the program's device: within it no call panics, the
-- whole length is transferred without an error, a read changes no byte, and a write changes the
-- range that it names.
pub backends_keep : (clock : ℕ → ℕ) → BackendsKeep clock
backends_keep clock = (
  main_disk Main.size,
  sigkill_disk Sigkill.dev_size,
  stress_disk Stress.dev_size,
  chain_disk Chain.chain_size,
  fsdemo_disk Fsdemo.dev_size,
  flushbench_disk clock Flushbench.dev_size,
)

-- What `roundtrip` of example/chain/main.go checks at the storage: a write request that a worker
-- handles over the chain's storage backend is answered with its length, and `slice` then returns the
-- bytes of the buffer of its tag from the same offset of the device; for each request inside the
-- device that fits in a buffer.
pub storage_holds :
    (b : Backend Chain.MemBackend) (w : Worker) (size tag o n : ℕ) (s : Chain.MemBackend)
    → Agrees Chain.backend b
    → length s.bytes ≡ size
    → IsValid w
    → Asks op_write w size tag o n
    → (s' : Chain.MemBackend) × (handle_io b w tag s ≡ some (pos n, w, s'))
      × (Chain.slice (pos o) n s' ≡ some (stretch (tag * w.buf_size) n w.pool))
unfolding Chain.slice agreed_disk
storage_holds b w size tag o n s a full v asks =
    let bs = stretch (tag * w.buf_size) n w.pool in
    let d =
      agreed_disk Chain.backend (λ (m : Chain.MemBackend). m.bytes) b size a (chain_disk size) in
    let (s', answered, now) = handle_io_writes b w size tag o n s d full v asks in
    let long = length-stretch (tag * w.buf_size) n w.pool (pool_holds b w size tag o n s v asks) in
    let kept = ap length now ∙ length-overwrite o n bs s.bytes ∙ full in
    (
      s',
      answered,
      copy_out-inside s'.bytes o n (omega (arith, kept, asks.inside))
          ∙ ap (λ (m : List ℕ). some (stretch o n m)) now
          ∙ ap some (stretch-overwrite_self o n bs s.bytes long (omega (arith, full, asks.inside))),
    )

-- If the descriptor stands for a device of `size` bytes, the backend that forwards to it is one.
module _ {T : Type 0} (d : Chain.Descriptor T) (size : ℕ) where
  -- What the calls on the descriptor do within the size.
  abbrev pub device : Backend T
  device = record { read_at = d.pread; write_at = d.pwrite; discarder = none; zeroer = none }

  abbrev pub IsDevice : Type 0
  IsDevice = IsDisk device size

  pub fd_disk : IsDevice → IsDisk (Chain.fd_backend d) size
  unfolding Chain.fd_read_at Chain.fd_write_at
  fd_disk dev = record {
    content = λ f. dev.content f.target;
    reads = λ n o f full inside. dev.reads n o f.target full inside;
    writes = λ n o bs f full long inside. dev.writes n o bs f.target full long inside;
  }

  fd-IsEofless :
      (dev : IsDevice)
      → IsEofless device size dev
      → IsEofless (Chain.fd_backend d) size (fd_disk dev)
  unfolding fd_disk Chain.fd_read_at
  fd-IsEofless dev whole = record { at_end = λ n o f full end. whole.at_end n o f.target full end }

  -- What `roundtrip` of example/chain/main.go does, at the proxy: if the descriptor stands for a device
  -- of `size` bytes, with no io.EOF, a write request and then a read request for the same bytes, by the proxy's
  -- workers, are answered with their length, the device behind the descriptor holds the bytes written
  -- at the same offset, and the read leaves them in the buffer of its tag.
  pub chain_roundtrip :
      (w w' : Worker) (tag tag' o n : ℕ) (f : Chain.FdBackend T) (dev : IsDevice)
      → length (dev.content f.target) ≡ size
      → IsValid w
      → IsValid w'
      → Asks op_write w size tag o n
      → Asks op_read w' size tag' o n
      → IsEofless device size dev
      → (f₁ f₂ : Chain.FdBackend T) × (w'' : Worker) × (handle_io (Chain.fd_backend d) w tag f
          ≡ some (pos n, w, f₁))
        × (dev.content f₁.target
            ≡ overwrite o n (stretch (tag * w.buf_size) n w.pool) (dev.content f.target))
        × (handle_io (Chain.fd_backend d) w' tag' f₁ ≡ some (pos n, w'', f₂))
        × (stretch (tag' * w'.buf_size) n w''.pool ≡ stretch (tag * w.buf_size) n w.pool)
  unfolding fd_disk
  chain_roundtrip w w' tag tag' o n f dev full v v' asks asks' whole =
      let b = Chain.fd_backend d in
      let bs = stretch (tag * w.buf_size) n w.pool in
      let (f₁, written, now) = handle_io_writes b w size tag o n f (fd_disk dev) full v asks in
      let kept = ap length now ∙ length-overwrite o n bs (dev.content f.target) ∙ full in
      let (w'', f₂, answered, filled, _) =
        handle_io_reads b w' size tag' o n f₁ (fd_disk dev) kept v' asks'
          (inr (fd-IsEofless dev whole)) in
      let long =
        length-stretch (tag * w.buf_size) n w.pool (pool_holds b w size tag o n f v asks) in
      (
        f₁,
        f₂,
        w'',
        written,
        now,
        answered,
        filled
            ∙ ap (stretch o n) now
            ∙ stretch-overwrite_self o n bs (dev.content f.target) long
                (omega (arith, full, asks.inside)),
      )
