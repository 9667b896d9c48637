-- ===== src/Tests/Requests.antt =====
-- ublk/worker.go over a backend that keeps its bytes in memory, as the one of example/main.go.
use ublk_go.Prelude.{
  ◌==◌, inr, ℕ, zero, suc, ◌+◌, ◌*◌, ◌%◌, ◌≤◌, ◌<◌, ◌≡◌, refl, true, false, List, some, none, [],
  ◌∷◌, ◌++◌, arith, replicate, length, drop, get_elem?, leb, if◌then◌else◌,
}
use ublk_go.Prelude.Int.{ℤ, pos, negsuc, neg}
use ublk_go.Prelude.Memory.{stretch, overwrite}
use ublk_go.Types.{IoDesc, io_desc_bytes, read_io_desc, op_read, op_write}
use ublk_go.Types.Layout.{desc_area}
use ublk_go.Storage.{Backend, Reply, ReadReply}
use ublk_go.Worker.Buffers.{
  Slice, alloc_buffers, aligned_alloc, alloc_buffers-slice, aligned_alloc_lem,
}
use ublk_go.Worker.{Worker, handle_io, get_desc, handle_discard}
use ublk_go.Worker.Valid.{IsValid, get_desc-desc_area}
use ublk_go.Worker.Handle.{Ends, Served, handle_io-Served}
use ublk_go.Worker.Disk.{IsDisk, IsEofless, Asks, read_at_end, handle_io_roundtrip}

-- `copy(p, m.data[off:off+len(p)])` and its counterpart; past the end they fail.
pub mem_read : ℕ → ℤ → List ℕ → ReadReply (List ℕ)
mem_read n (pos o) m =
    if leb (o + n) (length m)
    then record {
      reply = record { count = pos n; failed = false; after = m };
      filled = stretch o n m;
    }
    else record { reply = record { count = pos 0; failed = true; after = m }; filled = [] }
mem_read n (negsuc o) m = record {
  reply = record { count = pos 0; failed = true; after = m };
  filled = [];
}

pub mem_write : List ℕ → ℤ → List ℕ → Reply (List ℕ)
mem_write bs (pos o) m =
    if leb (o + length bs) (length m)
    then record { count = pos (length bs); failed = false; after = overwrite o (length bs) bs m }
    else record { count = pos 0; failed = true; after = m }
mem_write bs (negsuc o) m = record { count = pos 0; failed = true; after = m }

abbrev pub memory : Backend (List ℕ)
memory = record { read_at = mem_read; write_at = mem_write; discarder = none; zeroer = none }

unfoldable pub memory-IsDisk : (size : ℕ) → IsDisk memory size
unfolding mem_read mem_write
memory-IsDisk size = record {
  content = λ m. m;
  reads = λ n o m full inside. (ground arith, λ _. ground arith, ground arith, ground arith);
  writes = λ n o bs m full long inside. ground arith;
}

pub memory-IsEofless : (size : ℕ) → IsEofless memory size (memory-IsDisk size)
unfolding memory-IsDisk mem_read
memory-IsEofless size = record { at_end = λ n o m full end. ground arith }

-- Tag 0 asks to write sector 1, tag 1 to read it.
abbrev pub write_desc : IoDesc
write_desc = record { op_flags = 0x301; nr_sectors = 1; start_sector = 1; addr = 0 }

abbrev pub read_desc : IoDesc
read_desc = record { op_flags = 0; nr_sectors = 1; start_sector = 1; addr = 0 }

abbrev pub worker : Worker
worker = record {
  qid = 0;
  depth = 2;
  buf_size = 512;
  descs = desc_area (write_desc ∷ read_desc ∷ []);
  pool = replicate 512 7 ++ replicate 512 0;
  pool_addr = 4096;
  bufs = (alloc_buffers 100 2 512).bufs;
}

worker_bufs :
    (tag : ℕ)
    → tag < 2
    → (s : Slice) × (get_elem? worker.bufs tag ≡ some s) × (s.start ≡ tag * 512) × (512 ≤ s.cap)
unfolding alloc_buffers
worker_bufs zero lt = (_, refl, refl, omega arith)
worker_bufs (suc zero) lt = (_, refl, refl, omega arith)
worker_bufs (suc (suc tag)) lt = absurd (omega arith)

pub worker-IsValid : IsValid worker
unfolding desc_area io_desc_bytes
worker-IsValid = record {
  deep = omega arith;
  descs_all = refl;
  pool_all = refl;
  bufs_all = worker_bufs;
}

pub worker_writes : Asks op_write worker 1024 0 512 512
unfolding desc_area io_desc_bytes get_desc read_io_desc
worker_writes = record {
  desc = write_desc;
  read = refl;
  op_is = refl;
  at = refl;
  long = refl;
  some_asked = omega arith;
  inside = omega arith;
  addressed = omega arith;
  fits = omega arith;
  small = omega arith;
  listed = omega arith;
}

pub worker_reads : Asks op_read worker 1024 1 512 512
unfolding desc_area io_desc_bytes get_desc read_io_desc
worker_reads = record {
  desc = read_desc;
  read = refl;
  op_is = refl;
  at = refl;
  long = refl;
  some_asked = omega arith;
  inside = omega arith;
  addressed = omega arith;
  fits = omega arith;
  small = omega arith;
  listed = omega arith;
}

handle_io_roundtrip_example :
    (s₁ s₂ : List ℕ) × (w : Worker) × (handle_io memory worker 0 (replicate 1024 0)
      ≡ some (pos 512, worker, s₁))
    × (handle_io memory worker 1 s₁ ≡ some (pos 512, w, s₂))
    × (stretch (1 * 512) 512 w.pool ≡ stretch (0 * 512) 512 worker.pool)
unfolding memory-IsDisk
handle_io_roundtrip_example =
    handle_io_roundtrip memory worker worker 1024 0 1 512 512 (replicate 1024 0)
      (memory-IsDisk 1024) refl worker-IsValid worker-IsValid worker_writes worker_reads
      (inr (memory-IsEofless 1024))

handle_io-Served_example :
    let desc = read_io_desc (drop (1 * 24) worker.descs) in
    Ends (Served worker 1 (desc.nr_sectors * 512)) (handle_io memory worker 1 (replicate 1024 0))
handle_io-Served_example =
    handle_io-Served memory worker 1 (replicate 1024 0) worker-IsValid (omega arith)

-- A discard that the backend does not support.
discard_refused : handle_discard memory worker (pos 0) 512 [] ≡ some (neg 95, worker, [])
unfolding handle_discard
discard_refused = refl

get_desc-desc_area_example : get_desc worker 1 ≡ some read_desc
get_desc-desc_area_example =
    get_desc-desc_area worker (write_desc ∷ read_desc ∷ []) 1 refl refl (omega arith)

alloc_buffers-slice_example :
    (s : Slice) × (get_elem? (alloc_buffers 100 4 512).bufs 3 ≡ some s)
    × (s.start ≡ 3 * 512)
    × (s.len ≡ 512)
    × (512 ≤ s.cap)
    × (s.start + s.len ≤ length (alloc_buffers 100 4 512).pool.bytes)
alloc_buffers-slice_example = alloc_buffers-slice 100 4 512 3 (omega arith)

aligned_alloc_lem_example :
    let b = aligned_alloc 100 8192 4096 in
    (b.addr % 4096 ≡ 0)
    × (100 ≤ b.addr)
    × (b.addr + 8192 ≤ 100 + (8192 + 4096))
    × (length b.bytes ≡ 8192)
    × (8192 ≤ b.cap)
    × (b.addr + b.cap ≡ 100 + (8192 + 4096))
aligned_alloc_lem_example = aligned_alloc_lem 100 8192 4096 (omega arith)

-- A backend that returns io.EOF with a read up to its end, as io.ReaderAt allows, still fills the
-- buffer, and the request is answered with -EIO.
eof_read : ℕ → ℤ → List ℕ → ReadReply (List ℕ)
eof_read n (pos o) m = record {
  reply = record { count = pos n; failed = n + o == length m; after = m };
  filled = stretch o n m;
}
eof_read n (negsuc o) m = mem_read n (negsuc o) m

abbrev eof_memory : Backend (List ℕ)
eof_memory = record memory { read_at = eof_read }

eof_memory-IsDisk : IsDisk eof_memory 1024
unfolding eof_read mem_write
eof_memory-IsDisk = record {
  content = λ m. m;
  reads = λ n o m full inside. (refl, λ before. ground arith, refl, refl);
  writes = λ n o bs m full long inside. ground arith;
}

last_sector_refused :
    (w : Worker) × (s : List ℕ) × (handle_io eof_memory worker 1 (replicate 1024 0)
      ≡ some (neg 5, w, s))
unfolding eof_read
last_sector_refused =
    read_at_end eof_memory worker 1024 1 512 512 (replicate 1024 0) worker-IsValid worker_reads refl
