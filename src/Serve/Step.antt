-- ===== src/Serve/Step.antt =====
-- One completion of the inner loop of `run`: its request is handled and its answer is committed.
use ublk_go.Prelude.{ap₂, ℕ, ◌+◌, ◌^◌, ◌<◌, ◌≡◌, ◌≢◌, refl, [], ◌∷◌, ◌++◌, some}
use ublk_go.Prelude.Int.{ℤ}
use ublk_go.Go.Words.{u16, sub_u32}
use ublk_go.Storage.{Backend}
use ublk_go.Uring.Entry.{Cqe}
use ublk_go.Uring.Sq.Valid as Sub
use ublk_go.Uring.Cq.{seen_cqe}
use ublk_go.Uring.Cq.Queue as Comp
use ublk_go.Worker.{Worker, handle_io}
use ublk_go.Worker.Valid as Work
use ublk_go.Worker.Handle.{Served, end_of, handle_io-Served}
use ublk_go.Serve.{Memory, written, Serving, next, serve_one, buffer_addr}
use ublk_go.Serve.Command.{HasBuffers, prepare_commit-Queued, pending-Queued}
use ublk_go.Serve.Order.{commit_sqe, IsRequest, IsSized, written-IsValid}

module _ {S : Type 0} (b : Backend S) (k kq : ℕ) where
  -- What `run` needs of its parts at each completion.
  pub record IsReady (v : Serving S) : Type 0 where
    pub working : Work.IsValid v.worker
    pub buffers : HasBuffers v.worker
    pub submission : Sub.IsValid k v.sq
    pub completing : Comp.IsValid kq v.cq

  -- One completion served.
  pub record Step (v : Serving S) (c : Cqe) (v' : Serving S) : Type 0 where
    pub result : ℤ
    pub handled :
        handle_io b v.worker (u16 c.user_data) v.store ≡ some (result, v'.worker, v'.store)
    pub ready : IsReady v'
    pub same : (v'.worker.depth ≡ v.worker.depth) × (v'.char_fd ≡ v.char_fd)
    pub same_size : v'.worker.buf_size ≡ v.worker.buf_size
    pub added :
        Sub.pending_sqes k v'.sq
        ≡ Sub.pending_sqes k v.sq ++ commit_sqe v.char_fd v'.worker (u16 c.user_data) result ∷ []
    pub grown : Sub.pending v'.sq ≡ Sub.pending v.sq + 1
    pub seen : v'.cq ≡ seen_cqe v.cq
    pub unmoved : Sub.unread v'.sq ≡ Sub.unread v.sq
    pub kept :
        Sub.unread v.sq + Sub.pending v.sq < 2 ^ k
        → Sub.queued_sqes k v'.sq ≡ Sub.queued_sqes k v.sq

  kept_buffers :
      (w : Worker) (tag n : ℕ) (out : ℤ × Worker × S)
      → HasBuffers w
      → Served w tag n out
      → HasBuffers out.1
  unfolding buffer_addr
  kept_buffers w tag n out has sv =
      let (depth, size, descs) = sv.shape in
      let (qid, bufs, pool) = sv.place in λ t lt. rw (bufs, pool, size) (has t (rw (← depth) lt))

  -- A completion without an error is served: its request is handled, and the answer is committed for
  -- its tag at the end of the pending entries.
  pub serve_one-Step :
      (v : Serving S) (c : Cqe)
      → IsReady v
      → IsRequest v.worker.depth c
      → Comp.waiting v.cq ≢ 0
      → Sub.pending v.sq < 2 ^ k
      → (v' : Serving S) × (serve_one b c v ≡ some (next v')) × Step v c v'
  unfolding serve_one
  serve_one-Step v c is ask busy room =
      let tag = u16 c.user_data in
      let (out, handled, sv) =
        end_of (handle_io b v.worker tag v.store)
          (handle_io-Served b v.worker tag v.store is.working ask.listed) in
      let has = kept_buffers v.worker tag _ out is.buffers sv in
      let (depth, size, descs) = sv.shape in
      let (sq, made, q) =
        prepare_commit-Queued k v.char_fd out.1 tag v.sq out.0 (has tag (rw depth ask.listed))
          is.submission room in
      (
        record v { worker = out.1; sq = sq; store = out.2; cq = seen_cqe v.cq },
        rw (ask.fine, handled, made),
        record {
          result = out.0;
          handled = handled;
          ready = record {
            working = sv.valid;
            buffers = has;
            submission = q.valid;
            completing = (Comp.seen_cqe-tail kq v.cq is.completing busy).0;
          };
          same = (depth, refl);
          same_size = size;
          added = q.added;
          grown = pending-Queued k v.sq _ sq q;
          seen = refl;
          unmoved = ap₂ (λ (h t : ℕ). sub_u32 t h) q.unmoved.0 q.unmoved.1;
          kept = q.kept;
        },
      )

  -- The kernel writes while the worker is ready.
  pub written-IsReady :
      (m : Memory) (v : Serving S)
      → IsReady v
      → IsSized v.worker.depth v.worker.buf_size m
      → IsReady (record v { worker = written m v.worker })
  unfolding buffer_addr
  written-IsReady m v is sized = record {
    working = written-IsValid m v.worker is.working sized;
    buffers = is.buffers;
    submission = is.submission;
    completing = is.completing;
  }
