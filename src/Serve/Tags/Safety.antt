-- ===== src/Serve/Tags/Safety.antt =====
-- What holds of the queue of a worker at any time after its loop of `init`, whatever the kernel does.
use ublk_go.Prelude.{
  none_of_length, ℕ, ◌+◌, ◌^◌, ◌≤◌, ◌<◌, ◌≡◌, refl, sym, ◌∙◌, ap, subst, [], ◌∷◌, ◌++◌, some, arith,
  length, false,
}
use ublk_go.Prelude.Int.{ℤ, is_neg}
use ublk_go.Storage.{Backend}
use ublk_go.Uring.Entry.{Cqe}
use ublk_go.Uring.Sq.{Sq}
use ublk_go.Uring.Sq.Valid as Sub
use ublk_go.Uring.Cq.{peek_cqe}
use ublk_go.Uring.Cq.Queue as Comp
use ublk_go.Worker.Valid as Work
use ublk_go.Serve.{Serving, next, serve_one, fetch_loop}
use ublk_go.Serve.Command.{HasBuffers, fetch_loop-fetch_sqes}
use ublk_go.Uring.Sq.Valid.{pending-length, queued-length}
use ublk_go.Serve.Order.{commit_sqe}
use ublk_go.Serve.Step.{serve_one-Step}
use ublk_go.Serve.Tags.{Queue, Reach}
use ublk_go.Serve.Tags.Count.{count-fetch_all, below, length-fetch_sqes}
use ublk_go.Serve.Tags.Moves.{Inv, everywhere, total, Reach-Inv, front_below, user_data_tag}

module _ {S : Type 0} (b : Backend S) (k kq : ℕ) where
  -- A queue at the end of `init`: the loop of `init` has run on an unused ring, and nothing else has
  -- happened yet.
  pub record Started (q : Queue S) : Type 0 where
    pub working : Work.IsValid q.serving.worker
    pub buffers : HasBuffers q.serving.worker
    pub unused : Sq
    pub submission : Sub.IsValid k unused
    pub idle : (Sub.pending unused ≡ 0) × (Sub.unread unused ≡ 0)
    pub fetched :
        fetch_loop q.serving.worker.depth q.serving.char_fd q.serving.worker 0 unused
        ≡ some q.serving.sq
    pub completing : Comp.IsValid kq q.serving.cq
    pub quiet : Comp.waiting q.serving.cq ≡ 0
    pub none_held : q.held ≡ []

  some_inj : {x y : Sq} → some x ≡ some y → x ≡ y
  some_inj e = cc

  module _ (q₀ : Queue S) (st : Started q₀) (deep : q₀.serving.worker.depth ≤ 2 ^ k) where
    pub Started-Inv : Inv b k kq q₀.serving.worker.depth q₀
    Started-Inv =
        let w = q₀.serving.worker in
        let (sq, loops, valid, all, same) =
          fetch_loop-fetch_sqes k q₀.serving.char_fd w st.buffers st.unused st.submission st.idle.0
            deep in
        let now : sq ≡ q₀.serving.sq = some_inj (sym loops ∙ st.fetched) in
        let queued =
          none_of_length (Sub.queued_sqes k q₀.serving.sq)
            (queued-length k q₀.serving.sq ∙ ap Sub.unread (sym now) ∙ same ∙ st.idle.1) in
        let waits =
          none_of_length (Comp.completions kq q₀.serving.cq)
            (Comp.waiting-length kq q₀.serving.cq ∙ st.quiet) in
        let fetches = ap (Sub.pending_sqes k) (sym now) ∙ all in
        record {
          ready = record {
            working = st.working;
            buffers = st.buffers;
            submission = subst (Sub.IsValid k) now valid;
            completing = st.completing;
          };
          depth_is = refl;
          once = λ t.
              rw (fetches, queued, waits, st.none_held)
                (omega (arith, count-fetch_all q₀.serving.char_fd w t w.depth));
          all = omega (
            arith,
            ap length fetches,
            pending-length k q₀.serving.sq,
            ap length queued,
            queued-length k q₀.serving.sq,
            st.quiet,
            ap length st.none_held,
            length-fetch_sqes q₀.serving.char_fd w 0 w.depth,
          );
        }

    -- From the end of `init` on, in whatever order the worker and the kernel take turns, each tag
    -- below the depth is at exactly one place and once there: in a pending entry, in a published one
    -- that the kernel has not read, held by the kernel, or in a completion that waits. No other tag is
    -- anywhere, and there are as many of them in all as the queue is deep. Both rings must have at
    -- least as many entries as the queue has tags.
    pub tags_once :
        q₀.serving.worker.depth ≤ 2 ^ kq
        → (q : Queue S) → Reach b q₀ q
        → ((t : ℕ) → everywhere k kq t q ≡ below q₀.serving.worker.depth t)
          × (total k kq q ≡ q₀.serving.worker.depth)
    tags_once wide q r =
        let i = Reach-Inv b k kq q₀.serving.worker.depth deep wide Started-Inv r in (i.once, i.all)

    -- From the end of `init` on, in whatever order the worker and the kernel take turns, with both
    -- rings at least as large as the queue: a completion without an error that `PeekCQE` returns is
    -- for a tag of the queue, the inner loop of `run` serves it without a panic, its answer is
    -- appended to the pending entries for its own tag, so that it is not dropped, and the published
    -- entries that the kernel has not read do not change.
    pub served_safely :
        q₀.serving.worker.depth ≤ 2 ^ kq
        → (q : Queue S) → Reach b q₀ q
        → (c : Cqe) → peek_cqe q.serving.cq ≡ some c
        → is_neg c.res ≡ false
        → (v' : Serving S) × (r : ℤ) × (serve_one b c q.serving ≡ some (next v'))
          × (c.user_data < q₀.serving.worker.depth)
          × (Sub.pending_sqes k v'.sq
              ≡ Sub.pending_sqes k q.serving.sq
                ++ commit_sqe q.serving.char_fd v'.worker c.user_data r ∷ [])
          × (Sub.queued_sqes k v'.sq ≡ Sub.queued_sqes k q.serving.sq)
    served_safely wide q r c peeked fine =
        let depth = q₀.serving.worker.depth in
        let i = Reach-Inv b k kq depth deep wide Started-Inv r in
        let low = front_below b k kq depth q c i peeked in
        let tag = user_data_tag b k kq depth q c i low in
        let busy = Comp.peeked_waiting kq q.serving.cq i.ready.completing peeked in
        let room : Sub.unread q.serving.sq + Sub.pending q.serving.sq < 2 ^ k =
          omega (arith, i.all, busy, deep) in
        let (v', made, s) =
          serve_one-Step b k kq q.serving c i.ready
            (record { fine = fine; listed = rw tag (omega (arith, low, i.depth_is)) }) busy
            (omega (arith, room)) in
        (
          v',
          s.result,
          made,
          low,
          s.added
              ∙ ap
                  (λ (u : ℕ).
                    Sub.pending_sqes k q.serving.sq
                    ++ commit_sqe q.serving.char_fd v'.worker u s.result ∷ [])
                  tag,
          s.kept room,
        )
