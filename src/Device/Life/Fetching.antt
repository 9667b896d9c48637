-- ===== src/Device/Life/Fetching.antt =====
-- `init` of ublk/worker.go on the ring that `uring.New` makes for the queue, and the first lines of
-- `run`.
use ublk_go.Prelude.{ℕ, ◌≤◌, ◌≡◌, refl, ◌∙◌, ap, some, ◌∷◌, length}
use ublk_go.Prelude.Int.{ℤ}
use ublk_go.Uring.Sq.{Sq, flush_sq}
use ublk_go.Uring.Sq.Valid.{queued_sqes}
use ublk_go.Uring.Sq.Quiet.{published, flushed_queue}
use ublk_go.Uring.Ring.{Ring, new_ring, submit_and_wait, taken, enter_getevents, enter_ring, on_fd}
use ublk_go.System.{fine, entered, Log, look, change, ◌>>◌, ◌>>=◌, then_do, call, keep}
use ublk_go.System.Granted.{Answers, granting, HasRings}
use ublk_go.Worker.{Worker}
use ublk_go.Serve.{fetch_loop}
use ublk_go.Serve.Command.{HasBuffers, fetch_sqes, fetch_loop-fetch_sqes}
use ublk_go.Serve.Tags.Count.{length-fetch_sqes}
use ublk_go.Device.Life.Granted.{new_ring-granted}

module _ (a : Answers) (has : HasRings a) where
  -- On a kernel that grants every call, for a worker with buffers as `allocBuffers` makes them and
  -- 1 to 4096 tags, `uring.New` makes a ring on which the loop of `init` does not panic and drops no
  -- tag; and what the kernel then reads of it, once `SubmitAndWait` has published it, is FETCH_REQ
  -- for each tag from 0 on, in order, as many as the call is told.
  pub init_fetches :
      (w : Worker) (char_fd : ℤ) (l : Log)
      → HasBuffers w
      → 1 ≤ w.depth
      → w.depth ≤ 4096
      → (g : Ring) × (l' : Log) × (sq : Sq) × (k : ℕ) × (fd : ℕ) × (new_ring (granting a) w.depth l
          ≡ (fine g, l'))
        × (fetch_loop w.depth char_fd w 0 g.sq ≡ some sq)
        × (queued_sqes k (flush_sq sq).1 ≡ fetch_sqes char_fd w 0 w.depth)
        × (submit_and_wait (granting a) (record g { sq = sq }) l' ≡ (
          fine w.depth,
          taken w.depth (record g { sq = (flush_sq sq).1 }),
          entered fd w.depth enter_getevents (fine w.depth) ∷ l',
        ))
  unfolding submit_and_wait enter_ring on_fd ◌>>=◌ ◌>>◌ then_do look keep call change
  init_fetches w char_fd l bufs lo hi =
      let (k, g, l', makes, idle, deep) = new_ring-granted a has w.depth l lo hi in
      let (sq, loops, valid, all, same) =
        fetch_loop-fetch_sqes k char_fd w bufs g.sq idle.valid idle.quiet.0 deep in
      let read = same ∙ idle.quiet.1 in
      let count : (flush_sq sq).0 ≡ w.depth =
        (published k sq valid read).count ∙ ap length all ∙ length-fetch_sqes char_fd w 0 w.depth in
      (
        g,
        l',
        sq,
        k,
        idle.fd,
        makes,
        loops,
        flushed_queue k sq valid read ∙ all,
        rw (idle.open_fd, count) refl,
      )
