-- ===== src/Serve/Tags/Disk.antt =====
-- The queue of a worker, in whatever order its parts take turns, is a device of bytes.
use ublk_go.Prelude.{
  ℕ, ◌^◌, ◌≤◌, ◌<◌, ◌≡◌, refl, ◌∙◌, ap, subst, Bool, List, [], ◌∷◌, ◌++◌, some, arith, ◌==◌, length,
  replicate, if_both,
}
use ublk_go.Prelude.Int.{ℤ}
use ublk_go.Prelude.Memory.{length-overwrite}
use ublk_go.Go.Words.{u16}
use ublk_go.Types.{IoDesc, op_read, op_write, op_write_zeroes}
use ublk_go.Storage.{Backend}
use ublk_go.Uring.Entry.{Cqe}
use ublk_go.Uring.Sq.Valid as Sub
use ublk_go.Uring.Cq.{peek_cqe}
use ublk_go.Worker.Handle.{Ends}
use ublk_go.Worker.Disk.{IsDisk}
use ublk_go.Worker.Spec.{
  long_of, op_of, Outcome, buffered, zero_outcome, disk_step, is_some, IsZeroing, Allowed,
}
use ublk_go.Worker.Refine.{Keeps, handle_io-Keeps}
use ublk_go.Serve.{Serving, next, serve_one}
use ublk_go.Serve.Order.{commit_sqe}
use ublk_go.Serve.Tags.{Queue, Step, serves, flushes, takes, completes, Reach, here, later}
use ublk_go.Serve.Tags.Moves.{Inv, Reach-Inv, served_step, user_data_tag}
use ublk_go.Serve.Tags.Safety.{Started, Started-Inv}
use ublk_go.Serve.Tags.History.{
  Round, round_of, history, request_of, promised, bytes_after, AllAllowed, IsRight, IsLegal,
}

module _ (cap : ℕ) (can_zero : Bool) (desc : IoDesc) (held m : List ℕ) where
  abbrev Same : Outcome → Type 0
  Same o = length o.bytes ≡ length m

  buffered-Same : (n : ℕ) (done : Outcome) → Same done → Same (buffered cap n held m done)
  buffered-Same n done h = if_both Same (n == 0) _ _ refl (if_both Same _ _ _ refl h)

  zero-Same : (o n : ℕ) → Same (zero_outcome can_zero o n held m)
  zero-Same o n =
      if_both Same can_zero _ _
        (if_both (λ (t : List ℕ). length t ≡ length m) (n == 0) _ _ refl
          (length-overwrite o n (replicate n 0) m))
        refl

  -- A request does not change how many bytes the device has.
  disk_step-Same : Same (disk_step cap can_zero desc held m)
  disk_step-Same =
      let op = op_of desc in
      let n = long_of desc in
      if_both Same (op == op_read) _ _ (buffered-Same n _ refl) (
        if_both Same (op == op_write) _ _ (buffered-Same n _ (length-overwrite _ n held m))
          (if_both Same (op == op_write_zeroes) _ _ (zero-Same _ n) refl))

module _ {S : Type 0} (b : Backend S) (k kq size : ℕ) (d : IsDisk b size)
    (zeroing : IsZeroing b size d) where
  length-bytes_after : (es : List (Round S)) (m : List ℕ) → length (bytes_after b es m) ≡ length m
  length-bytes_after [] m = refl
  length-bytes_after (e ∷ es) m =
      disk_step-Same e.before.worker.buf_size (is_some b.zeroer) (request_of e) _
        (bytes_after b es m)
      ∙ length-bytes_after es m

  module _ (depth : ℕ) (deep : depth ≤ 2 ^ k) (wide : depth ≤ 2 ^ kq) where
    round-IsRight :
        (q : Queue S) (c : Cqe) (v : Serving S)
        → Inv b k kq depth q
        → peek_cqe q.serving.cq ≡ some c
        → serve_one b c q.serving ≡ some (next v)
        → length (d.content q.serving.store) ≡ size
        → let e : Round S = record { tag = u16 c.user_data; before = q.serving; after = v } in
          Allowed b size d (request_of e)
          → IsRight b k e (d.content q.serving.store)
            × (d.content v.store ≡ (promised b e (d.content q.serving.store)).bytes)
    round-IsRight q c v i peeked e full ok =
        let tag = u16 c.user_data in
        let w = q.serving.worker in
        let (st, low, _) = served_step b k kq depth deep wide q c v i peeked e in
        let lt : tag < w.depth =
          rw (user_data_tag b k kq depth q c i low) (omega (arith, low, i.depth_is)) in
        let kept =
          subst
            (Ends (
              Keeps b size d w tag
                (long_of (request_of (record { tag = tag; before = q.serving; after = v }))) _))
            st.handled
            (handle_io-Keeps b size d w tag q.serving.store full i.ready.working lt zeroing ok) in
        (
          record {
            buffer = kept.held;
            committed =
                st.added
                ∙ ap
                    (λ (r : ℤ).
                      Sub.pending_sqes k q.serving.sq
                      ++ commit_sqe q.serving.char_fd v.worker tag r ∷ [])
                    kept.answer;
          },
          kept.bytes,
        )

    -- What is known of the rounds until a state.
    abbrev Known : List (Round S) → List ℕ → Serving S → Type 0
    Known es m v = IsLegal b k es m × (d.content v.store ≡ bytes_after b es m)

    step-Known :
        {q q' : Queue S} (st : Step b q q') (es : List (Round S)) (m : List ℕ)
        → Inv b k kq depth q
        → length m ≡ size
        → AllAllowed b size d (round_of st ++ es)
        → Known es m q.serving
        → Known (round_of st ++ es) m q'.serving
    step-Known {q} (serves {c} {v} peeked e) es m i full (ok, all) (legal, now) =
        let (right, then_now) =
          round-IsRight q c v i peeked e (ap length now ∙ length-bytes_after es m ∙ full) ok in
        let x : Round S = record { tag = u16 c.user_data; before = q.serving; after = v } in
        (
          (subst (IsRight b k x) now right, legal),
          then_now ∙ ap (λ (bs : List ℕ). (promised b x bs).bytes) now,
        )
    step-Known flushes es m i full all known = known
    step-Known (takes _) es m i full all known = known
    step-Known (completes _ _ _ _ _ _ _ _) es m i full all known = known

    allowed_rest :
        {q q' : Queue S} (st : Step b q q') (es : List (Round S))
        → AllAllowed b size d (round_of st ++ es)
        → AllAllowed b size d es
    allowed_rest (serves _ _) es all = all.1
    allowed_rest flushes es all = all
    allowed_rest (takes _) es all = all
    allowed_rest (completes _ _ _ _ _ _ _ _) es all = all

    reach-Known :
        {q₀ q : Queue S}
        → Inv b k kq depth q₀
        → length (d.content q₀.serving.store) ≡ size
        → (r : Reach b q₀ q) → AllAllowed b size d (history r)
        → Known (history r) (d.content q₀.serving.store) q.serving
    reach-Known i full here all = (tt, refl)
    reach-Known {q₀} i full (later r st) all =
        step-Known st (history r) (d.content q₀.serving.store)
          (Reach-Inv b k kq depth deep wide i r) full all
          (reach-Known i full r (allowed_rest st (history r) all))

  -- Over a backend that keeps the contracts of io.ReaderAt, io.WriterAt and ZeroWriter at its size, from
  -- the end of `init` on, in whatever order the worker and the kernel take turns, with both rings at
  -- least as large as the queue: if every request that was served stays inside the device, below 2^31
  -- bytes, no supported discard was asked for, and no read goes up to the end of a backend that may return
  -- io.EOF with it, then the rounds served are a legal history of a device
  -- of bytes - each takes effect at once, a read finds what the writes and the zeroings served before it
  -- left, in its own buffer, and exactly the entry that commits the promised answer for its tag is queued -
  -- and the backend's bytes are those that the history leaves.
  pub history-IsLegal :
      (q₀ q : Queue S) (st : Started b k kq q₀)
      → q₀.serving.worker.depth ≤ 2 ^ k
      → q₀.serving.worker.depth ≤ 2 ^ kq
      → length (d.content q₀.serving.store) ≡ size
      → (r : Reach b q₀ q) → AllAllowed b size d (history r)
      → IsLegal b k (history r) (d.content q₀.serving.store)
        × (d.content q.serving.store ≡ bytes_after b (history r) (d.content q₀.serving.store))
  history-IsLegal q₀ q st deep wide full r all =
      reach-Known q₀.serving.worker.depth deep wide (Started-Inv b k kq q₀ st deep) full r all
