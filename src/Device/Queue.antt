-- ===== src/Device/Queue.antt =====
-- The worker that `New` of ublk/ublk.go makes for its queue: `newWorker` of ublk/worker.go, and what
-- `init` does with its buffers and its ring.
use ublk_go.Prelude.{ℕ, ◌≡◌, refl, [], Option, none, some}
use ublk_go.Prelude.Int.{ℤ}
use ublk_go.Uring.Sq.{Sq}
use ublk_go.Worker.Buffers.{alloc_buffers}
use ublk_go.Worker.{Worker}
use ublk_go.Serve.{fetch_loop}

unfoldable pub new_worker : ℕ → ℕ → ℕ → Worker
new_worker qid depth buf_size = record {
  qid = qid;
  depth = depth;
  buf_size = buf_size;
  descs = [];
  pool = [];
  pool_addr = 0;
  bufs = [];
}

-- `w.allocBuffers()`, with the memory for the pool allocated at `addr`.
unfoldable pub with_buffers : ℕ → Worker → Worker
with_buffers addr w =
    let a = alloc_buffers addr w.depth w.buf_size in
    record w { pool = a.pool.bytes; pool_addr = a.pool.addr; bufs = a.bufs }

-- A panic of the loop would end the program; Device/Life/Fetching shows that there is none.
abbrev or_panicked : Sq → Option Sq → Sq
or_panicked sq none = sq
or_panicked sq (some sq') = sq'

-- The end of `init`: the buffers, and the loop over the tags, on the queue of the worker's ring.
unfoldable pub fetched : ℕ → ℤ → Worker → Sq → Sq
fetched addr fd w sq = or_panicked sq (fetch_loop w.depth fd (with_buffers addr w) 0 sq)

-- What a loop that does not panic leaves.
pub fetched_lem :
    (addr : ℕ) (fd : ℤ) (w : Worker) (sq sq' : Sq)
    → fetch_loop w.depth fd (with_buffers addr w) 0 sq ≡ some sq'
    → fetched addr fd w sq ≡ sq'
unfolding fetched
fetched_lem addr fd w sq sq' loops = rw loops refl
