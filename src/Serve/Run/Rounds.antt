-- ===== src/Serve/Run/Rounds.antt =====
-- Any number of passes of the outer loop of `run`.
use ublk_go.Prelude.{
  ℕ, ◌^◌, ◌≤◌, ◌≡◌, refl, sym, ◌∙◌, ap, false, List, [], ◌∷◌, ◌++◌, Option, some, arith, length,
}
use ublk_go.System.{fine}
use ublk_go.Storage.{Backend}
use ublk_go.Uring.Entry.{Cqe}
use ublk_go.Uring.Sq.Quiet.{IsQuiet}
use ublk_go.Uring.Cq.{wait_cqe}
use ublk_go.Uring.Cq.Queue as Comp
use ublk_go.Uring.Cq.Kept.{posted_in}
use ublk_go.Uring.Cq.Arrival.{
  SameFlags, SameFlags-trans, Arrives, arrived, Arrived, wait_cqe-Arrived,
}
use ublk_go.Serve.{Serving}
use ublk_go.Serve.Order.{AllRequests, all_posts, IsSized, AllSized}
use ublk_go.Serve.Step.{IsReady}
use ublk_go.Serve.Run.{Pass, on, run_pass, next_pass, run_loop}
use ublk_go.Serve.Run.Passes.{returned_to, Passed, run_pass-Passed}

-- What a pass needs from outside: completions arrive while WaitCQE waits, they and those posted while
-- the inner loop runs are requests for tags of the queue, the events given to it are enough, both
-- rings have room, and the kernel takes what it is given.
pub record Feeds (cancel_fd : Option ℕ) (depth buf_size k kq : ℕ) (p : Pass) : Type 0 where
  pub arrives : Arrives cancel_fd p.wakes
  pub requests : AllRequests depth (arrived p.wakes ++ all_posts p.posts)
  pub events : length (arrived p.wakes ++ all_posts p.posts) ≤ length p.posts
  pub room : length (arrived p.wakes ++ all_posts p.posts) ≤ 2 ^ kq
  pub slots : length (arrived p.wakes ++ all_posts p.posts) ≤ 2 ^ k
  pub waited_room : length (posted_in p.wakes) ≤ 2 ^ kq
  pub arrived_room : length (arrived p.wakes) ≤ 2 ^ kq
  pub waited_memory : IsSized depth buf_size p.memory
  pub later_memory : AllSized depth buf_size p.posts
  pub takes : (n : ℕ) → p.enters n ≡ fine n

abbrev pub AllFeed : Option ℕ → ℕ → ℕ → ℕ → ℕ → List Pass → Type 0
AllFeed cancel_fd depth buf_size k kq [] = Unit
AllFeed cancel_fd depth buf_size k kq (p ∷ ps) =
    Feeds cancel_fd depth buf_size k kq p × AllFeed cancel_fd depth buf_size k kq ps

module _ {S : Type 0} (b : Backend S) (k kq : ℕ) where
  -- Between two passes.
  pub record IsIdle (v : Serving S) : Type 0 where
    pub ready : IsReady b k kq v
    pub quiet : IsQuiet v.sq
    pub all_seen : Comp.completions kq v.cq ≡ []
    pub live : v.cq.cancelled ≡ false

  -- Passes one after the other, each of which served what arrived in it.
  pub data Rounds : List Pass → Serving S → Serving S → Type 0 where
    rounds_end : (v : Serving S) → Rounds [] v v
    rounds_pass :
        {p : Pass} {ps : List Pass} {v final : Serving S} {c : Cqe}
        → (passed : Passed b k kq p c (returned_to p v) (run_pass b p v))
        → Comp.completions kq (wait_cqe p.wakes v.cq).1 ≡ arrived p.wakes
        → Rounds ps (record passed.served { sq = passed.left }) final
        → Rounds (p ∷ ps) v final

  fed_pass :
      (p : Pass) (v : Serving S)
      → IsIdle v
      → Feeds v.cq.cancel_fd v.worker.depth v.worker.buf_size k kq p
      → (a : Arrived kq p.wakes v.cq) × Passed b k kq p a.first (returned_to p v) (run_pass b p v)
  fed_pass p v is f =
      let none : Comp.waiting v.cq ≡ 0 =
        sym (Comp.waiting-length kq v.cq) ∙ ap length is.all_seen in
      let a =
        wait_cqe-Arrived kq p.wakes v.cq is.ready.completing none is.live f.arrives
          f.arrived_room in
      (
        a,
        run_pass-Passed b k kq p f.takes v a.first is.ready is.quiet
            (omega (arith, none, f.waited_room)) a.returns f.waited_memory
            (record {
              requests = rw a.all_wait f.requests;
              sized = f.later_memory;
              events = rw a.all_wait f.events;
              room = rw a.all_wait f.room;
              slots = rw (a.all_wait, is.quiet.0) (omega (arith, f.slots));
            }),
      )

  IsIdle-after :
      (p : Pass) (c : Cqe) (v : Serving S) (a : Arrived kq p.wakes v.cq)
      → IsIdle v
      → (passed : Passed b k kq p c (returned_to p v) (run_pass b p v))
      → IsIdle (record passed.served { sq = passed.left }) × SameFlags v.cq passed.served.cq
  IsIdle-after p c v a is passed =
      let flags =
        SameFlags-trans v.cq (wait_cqe p.wakes v.cq).1 passed.served.cq a.flags passed.flags in
      (
        record {
          ready = passed.ready;
          quiet = passed.quiet;
          all_seen = passed.all_seen;
          live = flags.0 ∙ is.live;
        },
        flags,
      )

  -- From ready rings with nothing pending, unread or waiting, on a ring that is not cancelled, with any
  -- list of passes that each get what they need, and whatever the kernel writes meanwhile into the
  -- descriptor area and the buffers, the outer loop of `run` makes all of them without a panic or a
  -- return: in each pass WaitCQE waits until completions arrive, what arrived and was posted until the
  -- inner loop ended is served in order, and the kernel is given exactly one COMMIT_AND_FETCH entry for
  -- each, in that order; and after the last the rings are ready again, with nothing pending, unread or
  -- waiting.
  pub run_loop-Rounds :
      (ps : List Pass) (v : Serving S)
      → IsIdle v
      → AllFeed v.cq.cancel_fd v.worker.depth v.worker.buf_size k kq ps
      → (final : Serving S) × (run_loop b ps v ≡ some (on final)) × Rounds ps v final × IsIdle final
  unfolding run_loop next_pass
  run_loop-Rounds [] v is fed = (v, refl, rounds_end v, is)
  run_loop-Rounds (p ∷ ps) v is (f, fs) =
      let (a, passed) = fed_pass p v is f in
      let (idle, flags) = IsIdle-after p a.first v a is passed in
      let v1 = record passed.served { sq = passed.left } in
      let (final, loops, rounds, ends) =
        run_loop-Rounds ps v1 idle (rw (flags.1, passed.depth_kept, passed.size_kept) fs) in
      (final, rw passed.goes loops, rounds_pass passed a.all_wait rounds, ends)
