-- ===== src/Serve.antt =====
-- ublk/worker.go: the commands that a worker queues and the loops of `init` and `run`.
pub mod Command
pub mod Order
pub mod Step
pub mod Drain
pub mod Run
pub mod Tags
use ublk_go.Prelude.{
  ℕ, zero, suc, ◌+◌, ◌≡◌, Bool, List, [], ◌∷◌, Option, none, some, ◌==◌, if◌then◌else◌, get_elem?,
  replicate, length,
}
use ublk_go.Prelude.Int.{ℤ, pos, is_neg}
use ublk_go.Prelude.Memory.{overwrite}
use ublk_go.Go.Words.{u16, to_int32}
use ublk_go.Types.{IoCmd, io_cmd_bytes, u_io_fetch_req, u_io_commit_and_fetch_req}
use ublk_go.Storage.{Backend}
use ublk_go.Uring.Entry.{Sqe, Cqe, op_uring_cmd, zero_sqe, sqe64_cmd}
use ublk_go.Uring.Sq.{Sq, get_sqe64, write_sqe, flush_sq}
use ublk_go.Uring.Cq.{
  Cq, Wake, WaitResult, completion, err_cancelled, err_epoll, blocked, peek_cqe, seen_cqe, post_all,
  wait_cqe,
}
use ublk_go.Worker.{Worker, handle_io}

infixl 5 ◌>>=◌
abbrev pub ◌>>=◌ {ℓ κ} : {A : Type ℓ} {B : Type κ} → Option A → (A → Option B) → Option B
none >>= f = none
some a >>= f = f a

-- `uint64(uintptr(unsafe.Pointer(&w.bufs[tag][0])))`, which panics for an empty buffer.
unfoldable pub buffer_addr : Worker → ℕ → Option ℕ
buffer_addr w tag = do
  s ← get_elem? w.bufs tag
  if s.len == 0 then none else some (w.pool_addr + s.start)

-- The entry that both `prepareFetch` and `prepareCommitAndFetch` fill in, on a zeroed slot.
unfoldable pub io_sqe : ℕ → ℤ → ℕ → IoCmd → Sqe
io_sqe code fd tag cmd = record (zero_sqe sqe64_cmd) {
  opcode = op_uring_cmd;
  fd = to_int32 fd;
  off = code;
  user_data = tag;
  cmd = overwrite 0 sqe64_cmd (io_cmd_bytes cmd) (replicate sqe64_cmd 0);
}

-- What both do with what `GetSQE64` returned: with no free slot the tag is dropped.
unfoldable pub fill_io : ℕ → ℤ → Worker → ℕ → ℤ → Option ℕ × Sq → Option Sq
fill_io code fd w tag result (none, sq) = some sq
fill_io code fd w tag result (some i, sq) = do
  addr ← buffer_addr w tag
  let cmd : IoCmd = record { qid = w.qid; tag = tag; result = result; addr = addr }
  some (write_sqe i (io_sqe code fd tag cmd) sq)

-- `fd` is the char device's descriptor.
unfoldable pub prepare_fetch : ℤ → Worker → ℕ → Sq → Option Sq
prepare_fetch fd w tag sq = fill_io u_io_fetch_req fd w tag (pos 0) (get_sqe64 sq)

-- The loop of `init` over the tags, from `tag` on with `n` left.
unfoldable pub fetch_loop : ℕ → ℤ → Worker → ℕ → Sq → Option Sq
fetch_loop zero fd w tag sq = some sq
fetch_loop (suc n) fd w tag sq = prepare_fetch fd w tag sq >>= fetch_loop n fd w (tag + 1)

unfoldable pub prepare_commit_and_fetch : ℤ → Worker → ℕ → ℤ → Sq → Option Sq
prepare_commit_and_fetch fd w tag result sq =
    fill_io u_io_commit_and_fetch_req fd w tag result (get_sqe64 sq)

-- What `run` works on.
pub record Serving (S : Type 0) : Type 0 where
  pub worker : Worker
  pub char_fd : ℤ
  pub sq : Sq
  pub cq : Cq
  pub store : S

-- What the kernel has written of the memory that it shares with the worker, once it has: the descriptor
-- area and the buffers.
pub record Memory : Type 0 where
  pub descs : List ℕ
  pub pool : List ℕ

abbrev pub written : Memory → Worker → Worker
written m w = record w { descs = m.descs; pool = m.pool }

-- What the kernel does while one request is served.
pub record Meanwhile : Type 0 where
  pub posted : List Cqe
  pub memory : Memory

-- How a part of the loop goes on: with the next completion, or by returning from `run`.
pub data Turn (S : Type 0) : Type 0 where
  next : Serving S → Turn S
  returned : Serving S → Turn S

-- How the inner loop ends: with no completion left, by returning from `run`, or not within the
-- completions that were looked at.
pub data Drained (S : Type 0) : Type 0 where
  empty : Serving S → Drained S
  stopped : Serving S → Drained S
  unfinished : Serving S → Drained S

-- `c = PeekCQE(); if c == nil { break }`
unfoldable pub or_break :
    {S : Type 0}
    → (Cqe → Serving S → Option (Drained S))
    → Serving S
    → Option Cqe
    → Option (Drained S)
or_break go v none = some (empty v)
or_break go v (some c) = go c v

-- The rest of a pass of the inner loop, after what the kernel did meanwhile.
unfoldable pub go_on :
    {S : Type 0} → (Cqe → Serving S → Option (Drained S)) → Meanwhile → Turn S → Option (Drained S)
go_on go m (returned v) = some (stopped v)
go_on go m (next v) =
    let v' = record v { worker = written m.memory v.worker; cq = post_all m.posted v.cq } in
    or_break go v' (peek_cqe v'.cq)

module _ {S : Type 0} (b : Backend S) where
  -- The body of the inner loop, up to the next `PeekCQE`.
  unfoldable pub serve_one : Cqe → Serving S → Option (Turn S)
  serve_one c v =
      let tag = u16 c.user_data in
      let v' = record v { cq = seen_cqe v.cq } in
      if is_neg c.res then some (returned v') else do
        out ← handle_io b v.worker tag v.store
        sq ← prepare_commit_and_fetch v.char_fd out.1 tag out.0 v.sq
        some (next (record v' { worker = out.1; sq = sq; store = out.2 }))

  -- The inner loop from completion `c` on.
  unfoldable pub drain : List Meanwhile → Cqe → Serving S → Option (Drained S)
  drain [] c v = some (unfinished v)
  drain (m ∷ later) c v = serve_one c v >>= go_on (drain later) m
