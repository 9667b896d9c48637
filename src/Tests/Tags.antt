-- ===== src/Tests/Tags.antt =====
-- A queue of two tags in motion, at the worker of Tests/Requests.antt.
use ublk_go.Prelude.{
  ℕ, ◌<◌, ◌≡◌, ◌≢◌, refl, List, Option, none, some, [], ◌∷◌, ◌++◌, arith, inr, replicate,
}
use ublk_go.Prelude.Int.{ℤ, pos}
use ublk_go.Uring.Sq.{Sq, flush_sq, take_sqe, front_sqe}
use ublk_go.Uring.Sq.Valid as Sub
use ublk_go.Uring.Cq.{Cq, peek_cqe}
use ublk_go.Serve.{Serving, Turn, returned, next, serve_one, fetch_loop}
use ublk_go.Serve.Command.{fetch_loop-fetch_sqes}
use ublk_go.Serve.Order.{commit_sqe}
use ublk_go.Serve.Tags.{
  Queue, Reach, here, later, serves, flushes, takes, completes, with_sq, arrived,
}
use ublk_go.Serve.Tags.Count.{below}
use ublk_go.Serve.Tags.Moves.{everywhere, total}
use ublk_go.Serve.Tags.Safety.{Started, tags_once, served_safely}
use ublk_go.Worker.Spec.{IsZeroing}
use ublk_go.Serve.Tags.History.{history, AllAllowed, IsLegal, bytes_after}
use ublk_go.Serve.Tags.Disk.{history-IsLegal}
use ublk_go.Tests.Requests.{worker, worker-IsValid, memory, memory-IsDisk, memory-IsEofless}
use ublk_go.Tests.Rings.{fresh, fresh-IsValid}
use ublk_go.Tests.Serving.{worker-HasBuffers, serving, tag_zero}

abbrev or_fresh : Option Sq → Sq
or_fresh none = fresh
or_fresh (some r) = r

abbrev started : Queue (List ℕ)
started = record {
  serving = record serving {
    sq = or_fresh (fetch_loop 2 (pos 5) worker 0 fresh);
    cq = record serving.cq { tail = 0 };
  };
  held = [];
}

or_fresh_lem : (r : Option Sq) (s : Sq) → r ≡ some s → r ≡ some (or_fresh r)
or_fresh_lem none s e = cc
or_fresh_lem (some t) s e = refl

started-Started : Started memory 2 2 started
started-Started = record {
  working = worker-IsValid;
  buffers = worker-HasBuffers;
  unused = fresh;
  submission = fresh-IsValid;
  idle = (refl, refl);
  fetched =
      or_fresh_lem _ _
        (fetch_loop-fetch_sqes 2 (pos 5) worker worker-HasBuffers fresh fresh-IsValid refl
          (omega arith)).1;
  completing = record {
    small = omega arith;
    mask_pow = refl;
    cqes_all = refl;
    head_word = omega arith;
    tail_word = omega arith;
    fits = omega arith;
  };
  quiet = refl;
  none_held = refl;
}

-- Both FETCH_REQ entries are submitted, the kernel takes the first and completes its tag.
abbrev submitted_queue : Queue (List ℕ)
submitted_queue = record started {
  serving = with_sq (flush_sq started.serving.sq).1 started.serving;
}

abbrev taken : Queue (List ℕ)
taken = record {
  serving = with_sq (take_sqe submitted_queue.serving.sq) submitted_queue.serving;
  held = (front_sqe submitted_queue.serving.sq).user_data ∷ submitted_queue.held;
}

abbrev completed : Queue (List ℕ)
completed = record { serving = arrived worker.descs worker.pool tag_zero taken.serving; held = [] }

two_left : (n : ℕ) → n ≡ 2 → n ≢ 0
two_left n two e = absurd (omega (arith, two, e))

submitted_unread : Sub.unread submitted_queue.serving.sq ≢ 0
unfolding ublk_go.Serve.fetch_loop ublk_go.Serve.prepare_fetch ublk_go.Serve.fill_io
    ublk_go.Serve.buffer_addr ublk_go.Serve.io_sqe ublk_go.Uring.Sq.get_sqe64
    ublk_go.Uring.Sq.next_sqe ublk_go.Uring.Sq.take_slot ublk_go.Uring.Sq.flush_sq
    ublk_go.Uring.Sq.flush_loop ublk_go.Uring.Sq.take_sqe ublk_go.Uring.Sq.front_sqe
    ublk_go.Worker.Buffers.alloc_buffers
submitted_unread = two_left _ refl

taken_held : taken.held ≡ [] ++ tag_zero.user_data ∷ []
unfolding ublk_go.Serve.fetch_loop ublk_go.Serve.prepare_fetch ublk_go.Serve.fill_io
    ublk_go.Serve.buffer_addr ublk_go.Serve.io_sqe ublk_go.Uring.Sq.get_sqe64
    ublk_go.Uring.Sq.next_sqe ublk_go.Uring.Sq.take_slot ublk_go.Uring.Sq.flush_sq
    ublk_go.Uring.Sq.flush_loop ublk_go.Uring.Sq.take_sqe ublk_go.Uring.Sq.front_sqe
    ublk_go.Worker.Buffers.alloc_buffers
taken_held = refl

abbrev completed_reached : Reach memory started completed
completed_reached =
    later (later (later here flushes) (takes submitted_unread))
      (completes [] [] tag_zero worker.descs worker.pool taken_held refl refl)

tags_once_example : ((t : ℕ) → everywhere 2 2 t completed ≡ below 2 t) × (total 2 2 completed ≡ 2)
tags_once_example =
    tags_once memory 2 2 started started-Started (omega arith) (omega arith) completed
      completed_reached

completed_front : peek_cqe completed.serving.cq ≡ some tag_zero
unfolding peek_cqe ublk_go.Uring.Cq.post
completed_front = refl

served_safely_example :
    (v' : Serving (List ℕ)) × (r : ℤ) × (serve_one memory tag_zero completed.serving
      ≡ some (next v'))
    × (0 < 2)
    × (Sub.pending_sqes 2 v'.sq
        ≡ Sub.pending_sqes 2 completed.serving.sq ++ commit_sqe (pos 5) v'.worker 0 r ∷ [])
    × (Sub.queued_sqes 2 v'.sq ≡ Sub.queued_sqes 2 completed.serving.sq)
served_safely_example =
    served_safely memory 2 2 started started-Started (omega arith) (omega arith) completed
      completed_reached tag_zero completed_front refl

abbrev or_same : Serving (List ℕ) → Option (Turn (List ℕ)) → Serving (List ℕ)
or_same v none = v
or_same v (some (returned _)) = v
or_same v (some (next v')) = v'

or_same_lem :
    (v v' : Serving (List ℕ)) (o : Option (Turn (List ℕ)))
    → o ≡ some (next v')
    → o ≡ some (next (or_same v o))
or_same_lem v v' none e = cc
or_same_lem v v' (some (returned u)) e = cc
or_same_lem v v' (some (next u)) e = refl

-- The worker serves the completion: a write of a sector.
abbrev written : Queue (List ℕ)
written = record completed {
  serving = or_same completed.serving (serve_one memory tag_zero completed.serving);
}

zero_served : serve_one memory tag_zero completed.serving ≡ some (next written.serving)
zero_served =
    let (v', _, made, _, _, _) =
      served_safely memory 2 2 started started-Started (omega arith) (omega arith) completed
        completed_reached tag_zero completed_front refl in
    or_same_lem completed.serving v' (serve_one memory tag_zero completed.serving) made

abbrev written_reached : Reach memory started written
written_reached = later completed_reached (serves completed_front zero_served)

memory-IsZeroing : IsZeroing memory 1024 (memory-IsDisk 1024)
memory-IsZeroing = record { zeroes = λ z n o f s given full inside. cc }

sector_written : AllAllowed memory 1024 (memory-IsDisk 1024) (history written_reached)
unfolding ublk_go.Types.Layout.desc_area ublk_go.Types.io_desc_bytes ublk_go.Types.read_io_desc
sector_written = (
  record {
    inside = inr (omega arith);
    clean = inr (inr (memory-IsEofless 1024));
    addressed = omega arith;
    small = omega arith;
    undiscarded = inr refl;
  },
  tt,
)

history-IsLegal_example :
    IsLegal memory 2 (history written_reached) (replicate 1024 0)
    × (written.serving.store ≡ bytes_after memory (history written_reached) (replicate 1024 0))
unfolding memory-IsDisk
history-IsLegal_example =
    history-IsLegal memory 2 2 1024 (memory-IsDisk 1024) memory-IsZeroing started written
      started-Started (omega arith) (omega arith) refl written_reached sector_written
