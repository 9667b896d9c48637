-- ===== src/Serve/Run/Passes.antt =====
-- A pass of the outer loop of `run` leaves the rings ready for the next one, and a cancelled ring
-- ends it.
use ublk_go.Prelude.{
  ◌+◌, ◌≤◌, ℕ, ◌^◌, ◌≡◌, refl, sym, ◌∙◌, ap, subst, true, List, [], ◌∷◌, ◌++◌, Option, some, arith,
  length, ℕ_discrete, take,
}
use ublk_go.System.{Ret, fine, keep}
use ublk_go.Storage.{Backend}
use ublk_go.Uring.Entry.{Sqe, Cqe, zero_sqe}
use ublk_go.Uring.Window.{window_empty}
use ublk_go.Uring.Sq.{Sq, flush_sq, consume}
use ublk_go.Uring.Sq.Quiet.{IsQuiet, all_taken, idle_taken, flushed_queue}
use ublk_go.Uring.Sq.Valid as Sub
use ublk_go.Uring.Cq.{WaitResult, completion, wait_cqe}
use ublk_go.Uring.Cq.Queue as Comp
use ublk_go.Uring.Cq.Arrival.{SameFlags}
use ublk_go.Uring.Cq.Kept.{posted_in, wait_cqe-IsValid}
use ublk_go.Uring.Cq.Wait.{wait_cqe_completion, wait_cqe_cancelled}
use ublk_go.Serve.{◌>>=◌, written, Serving, empty, drain}
use ublk_go.Serve.Step.{IsReady, written-IsReady}
use ublk_go.Serve.Order.{Serves, memories, IsSized}
use ublk_go.Uring.Sq.Valid.{pending-length, queued-length}
use ublk_go.Serve.Drain.{Emptied, Enough, all_posted, drain-Emptied}
use ublk_go.Serve.Run.{
  Pass, Going, on, off, after_flush, submit_queue, submitted, drained, waited, run_pass, next_pass,
  run_loop,
}

-- Once Cancel was called, `run` returns at its next WaitCQE, and nothing is served or queued.
run_loop-cancelled :
    {S : Type 0} (b : Backend S) (p : Pass) (ps : List Pass) (v : Serving S)
    → v.cq.cancelled ≡ true
    → run_loop b (p ∷ ps) v ≡ some (off v)
unfolding run_loop run_pass waited next_pass
run_loop-cancelled b p ps v c = rw (wait_cqe_cancelled p.wakes v.cq c) refl

-- A kernel that takes all leaves the ring quiet.
submit_queue-IsQuiet :
    (k : ℕ) (r : Sq)
    → Sub.IsValid k r
    → Sub.unread r ≡ 0
    → (enters : ℕ → Ret ℕ) → ((n : ℕ) → enters n ≡ fine n)
    → (n : ℕ) × (r' : Sq) × (submit_queue enters r ≡ (fine n, r')) × Sub.IsValid k r' × IsQuiet r'
unfolding submit_queue after_flush keep
submit_queue-IsQuiet k r v read enters all = elim (ℕ_discrete (flush_sq r).0 0) [
  | yes idle ↦
      let (valid, quiet) = idle_taken k r v read idle in
      (0, (flush_sq r).1, ground arith, valid, quiet)
  | no busy ↦
      let (valid, quiet) = all_taken k r v read in
      (
        (flush_sq r).0,
        consume (flush_sq r).0 (flush_sq r).1,
        rw (all (flush_sq r).0) (ground arith),
        valid,
        quiet,
      )
]

-- When WaitCQE has returned.
abbrev pub returned_to : {S : Type 0} → Pass → Serving S → Serving S
returned_to p v = record v { worker = written p.memory v.worker; cq = (wait_cqe p.wakes v.cq).1 }

-- A pass of the outer loop, from when WaitCQE has returned the completion `c`: what was served, in
-- which order, what the kernel was given, and that the rings are ready for the next pass.
pub record Passed {S : Type 0} (b : Backend S) (k kq : ℕ) (p : Pass) (c : Cqe) (v : Serving S)
    (out : Option (Going S)) : Type 0 where
  pub served : Serving S
  pub drains : drain b p.posts c v ≡ some (empty served)
  pub entries : List Sqe
  pub order :
      Serves b v.char_fd v.worker v.store
        (all_posted b k kq v (take (length entries) p.posts))
        (memories (take (length entries) p.posts))
        entries
        served.worker
        served.store
  pub given : Sub.queued_sqes k (flush_sq served.sq).1 ≡ entries
  pub left : Sq
  pub goes : out ≡ some (on (record served { sq = left }))
  pub ready : IsReady b k kq (record served { sq = left })
  pub quiet : IsQuiet left
  pub all_seen : Comp.completions kq served.cq ≡ []
  pub depth_kept : served.worker.depth ≡ v.worker.depth
  pub size_kept : served.worker.buf_size ≡ v.worker.buf_size
  pub flags : SameFlags v.cq served.cq

module _ {S : Type 0} (b : Backend S) (k kq : ℕ) (p : Pass)
    (all : (n : ℕ) → p.enters n ≡ fine n) where
  submitted-Passed :
      (v : Serving S) (c : Cqe)
      → IsQuiet v.sq
      → Emptied b k kq v p.posts (drain b p.posts c v)
      → Passed b k kq p c v (drain b p.posts c v >>= λ d. some (drained p d))
  unfolding drained submitted
  submitted-Passed v c quiet e =
      let (n, left, submits, valid, settled) =
        submit_queue-IsQuiet k e.final.sq e.ready.submission (e.unmoved ∙ quiet.1) p.enters all in
      record {
        served = e.final;
        drains = e.ends;
        entries = e.entries;
        order = e.order;
        given =
            flushed_queue k e.final.sq e.ready.submission (e.unmoved ∙ quiet.1)
            ∙ e.added
            ∙ ap (λ (t : List Sqe). t ++ e.entries)
                (window_empty (zero_sqe 0) (2 ^ k) v.sq.slots v.sq.local_head (Sub.pending v.sq)
                  quiet.0);
        left = left;
        goes = rw e.ends (ap (λ (x : Ret ℕ × Sq). some (submitted e.final x)) submits);
        ready = record {
          working = e.ready.working;
          buffers = e.ready.buffers;
          submission = valid;
          completing = e.ready.completing;
        };
        quiet = settled;
        all_seen = e.all_seen;
        depth_kept = e.depth_kept;
        size_kept = e.size_kept;
        flags = e.flags;
      }

  -- From ready rings with nothing pending or unread, if there is room for what the kernel posts while
  -- WaitCQE waits, WaitCQE returns a completion, the inner loop then has the events and the room that
  -- it needs, and the kernel takes all that it is given, a pass of the outer loop goes on to the next
  -- pass: the requests are served in the order of their completions, the kernel is given exactly one
  -- COMMIT_AND_FETCH entry for each in that order, and the rings are again ready, with nothing pending
  -- or unread and no completion waiting.
  pub run_pass-Passed :
      (v : Serving S) (c : Cqe)
      → IsReady b k kq v
      → IsQuiet v.sq
      → Comp.waiting v.cq + length (posted_in p.wakes) ≤ 2 ^ kq
      → (wait_cqe p.wakes v.cq).0 ≡ completion c
      → IsSized v.worker.depth v.worker.buf_size p.memory
      → let w = returned_to p v in Enough b k kq w p.posts → Passed b k kq p c w (run_pass b p v)
  unfolding run_pass waited
  run_pass-Passed v c is quiet room e sized en =
      let cq = (wait_cqe p.wakes v.cq).1 in
      let w = returned_to p v in
      let now = written-IsReady b k kq p.memory v is sized in
      let is_after : IsReady b k kq w = record {
        working = now.working;
        buffers = now.buffers;
        submission = is.submission;
        completing = wait_cqe-IsValid kq p.wakes v.cq is.completing room;
      } in
      subst (λ (o : WaitResult). Passed b k kq p c w (waited b p v (o, cq))) (sym e)
        (submitted-Passed w c quiet
          (drain-Emptied b k kq p.posts w c is_after (wait_cqe_completion p.wakes v.cq c e).1 en))
