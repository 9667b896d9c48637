-- ===== src/Serve/Drain.antt =====
-- The inner loop of `run` keeps the order that Serve/Order.antt states, and ends when no completion
-- is left.
use mathlib.Core.List.{append_assoc}
use ublk_go.Prelude.{
  ℕ, suc, ◌+◌, ◌^◌, ◌≤◌, ◌≡◌, refl, sym, ◌∙◌, ap, subst, List, [], ◌∷◌, ◌++◌, Option, some, arith,
  length, take, length-append, Option-cases, inl, inr,
}
use ublk_go.Prelude.Int.{ℤ}
use ublk_go.Go.Words.{u16}
use ublk_go.Storage.{Backend}
use ublk_go.Uring.Entry.{Sqe, Cqe}
use ublk_go.Uring.Sq.Valid as Sub
use ublk_go.Uring.Cq.{Cq, peek_cqe, seen_cqe, post_all}
use ublk_go.Uring.Cq.Queue as Comp
use ublk_go.Uring.Cq.Arrival.{SameFlags, SameFlags-trans, posted-SameFlags}
use ublk_go.Worker.{Worker}
use ublk_go.Serve.{
  written, Meanwhile, Serving, next, Drained, empty, serve_one, drain, go_on, or_break,
}
use ublk_go.Serve.Step.{IsReady, Step, serve_one-Step, written-IsReady}
use ublk_go.Serve.Order.{
  Serves, served_none, served_one, commit_sqe, IsRequest, AllRequests, all_posts, memories,
  AllSized,
}

module _ {S : Type 0} (b : Backend S) (k kq : ℕ) where
  -- The completions that wait and those that are posted while the loop runs.
  abbrev pub all_posted : Serving S → List Meanwhile → List Cqe
  all_posted v posts = Comp.completions kq v.cq ++ all_posts posts

  -- The loop has ended with no completion left: what it served, in which order, and what it queued.
  pub record Emptied (v : Serving S) (posts : List Meanwhile) (out : Option (Drained S))
      : Type 0 where
    pub final : Serving S
    pub ends : out ≡ some (empty final)
    pub entries : List Sqe
    pub order :
        Serves b v.char_fd v.worker v.store
          (all_posted v (take (length entries) posts))
          (memories (take (length entries) posts))
          entries
          final.worker
          final.store
    pub added : Sub.pending_sqes k final.sq ≡ Sub.pending_sqes k v.sq ++ entries
    pub all_seen : Comp.completions kq final.cq ≡ []
    pub unmoved : Sub.unread final.sq ≡ Sub.unread v.sq
    pub ready : IsReady b k kq final
    pub depth_kept : final.worker.depth ≡ v.worker.depth
    pub size_kept : final.worker.buf_size ≡ v.worker.buf_size
    pub flags : SameFlags v.cq final.cq

  -- The room and the events that the loop needs.
  pub record Enough (v : Serving S) (posts : List Meanwhile) : Type 0 where
    pub requests : AllRequests v.worker.depth (all_posted v posts)
    pub sized : AllSized v.worker.depth v.worker.buf_size posts
    pub events : length (all_posted v posts) ≤ length posts
    pub room : length (all_posted v posts) ≤ 2 ^ kq
    pub slots : Sub.pending v.sq + length (all_posted v posts) ≤ 2 ^ k

  -- One pass of the loop, from a queue whose front is `c`.
  module _ (v : Serving S) (c : Cqe) (is : IsReady b k kq v) (peeked : peek_cqe v.cq ≡ some c)
      (m : Meanwhile) (later : List Meanwhile) (en : Enough v (m ∷ later)) where
    -- The completions that wait after the pass.
    split_front :
        (rest : List Meanwhile)
        → all_posted v (m ∷ rest)
          ≡ c ∷ ((Comp.completions kq (seen_cqe v.cq) ++ m.posted) ++ all_posts rest)
    split_front rest =
        ap (λ (t : List Cqe). t ++ (m.posted ++ all_posts rest))
          (Comp.peeked_front kq v.cq is.completing peeked)
        ∙ ap (λ (t : List Cqe). c ∷ t)
            (sym (append_assoc (Comp.completions kq (seen_cqe v.cq)) m.posted (all_posts rest)))

    requests_after :
        IsRequest v.worker.depth c
        × AllRequests v.worker.depth
            ((Comp.completions kq (seen_cqe v.cq) ++ m.posted) ++ all_posts later)
    requests_after = subst (AllRequests v.worker.depth) (split_front later) en.requests

    counted :
        length (all_posted v (m ∷ later))
        ≡ suc (Comp.waiting (seen_cqe v.cq) + length m.posted + length (all_posts later))
    counted =
        ap length (split_front later)
        ∙ ap suc (
            length-append (Comp.completions kq (seen_cqe v.cq) ++ m.posted) (all_posts later)
            ∙ ap (λ (n : ℕ). n + length (all_posts later))
                (length-append (Comp.completions kq (seen_cqe v.cq)) m.posted
                  ∙ ap (λ (n : ℕ). n + length m.posted) (Comp.waiting-length kq (seen_cqe v.cq))))

    turn : (v' : Serving S) × (serve_one b c v ≡ some (next v')) × Step b k kq v c v'
    turn =
        serve_one-Step b k kq v c is requests_after.0
          (Comp.peeked_waiting kq v.cq is.completing peeked) (omega (arith, en.slots, counted))

    -- What the pass leaves, with what the kernel has posted meanwhile.
    posted_after :
        (v' : Serving S)
        → v'.cq ≡ seen_cqe v.cq
        → IsReady b k kq v'
        → Comp.IsValid kq (post_all m.posted v'.cq)
          × (Comp.completions kq (post_all m.posted v'.cq)
              ≡ Comp.completions kq (seen_cqe v.cq) ++ m.posted)
    posted_after v' seen ready =
        let (valid, queue) = Comp.post_all-append kq v'.cq m.posted ready.completing (
          subst (λ (q : Cq). Comp.waiting q + length m.posted ≤ 2 ^ kq) (sym seen)
            (omega (arith, en.room, counted))) in
        (valid, queue ∙ ap (λ (q : Cq). Comp.completions kq q ++ m.posted) seen)

  -- The ring of the next pass.
  abbrev after_posts : Meanwhile → Serving S → Serving S
  after_posts m v = record v { worker = written m.memory v.worker; cq = post_all m.posted v.cq }

  -- One pass, and what it leaves for the passes after it.
  record Pass (v : Serving S) (c : Cqe) (m : Meanwhile) (later : List Meanwhile) : Type 0 where
    reached : Serving S
    made : serve_one b c v ≡ some (next reached)
    step : Step b k kq v c reached
    ready_next : IsReady b k kq (after_posts m reached)
    enough_next : Enough (after_posts m reached) later
    front_first :
        (rest : List Meanwhile)
        → all_posted v (m ∷ rest) ≡ c ∷ all_posted (after_posts m reached) rest

  pass :
      (v : Serving S) (c : Cqe) (m : Meanwhile) (later : List Meanwhile)
      → IsReady b k kq v
      → peek_cqe v.cq ≡ some c
      → Enough v (m ∷ later)
      → Pass v c m later
  pass v c m later is peeked en =
      let (v', made, step) = turn v c is peeked m later en in
      let (valid, queue) = posted_after v c is peeked m later en v' step.seen step.ready in
      let now =
        written-IsReady b k kq m.memory v' step.ready
          (rw (step.same.0, step.same_size) en.sized.0) in
      let asks = requests_after v c is peeked m later en in
      let first : (rest : List Meanwhile)
          → all_posted v (m ∷ rest) ≡ c ∷ all_posted (after_posts m v') rest =
        λ rest. rw queue (split_front v c is peeked m later en rest) in
      let total : length (all_posted v (m ∷ later))
          ≡ suc (length (all_posted (after_posts m v') later)) =
        ap length (first later) in
      record {
        reached = v';
        made = made;
        step = step;
        ready_next = record {
          working = now.working;
          buffers = now.buffers;
          submission = step.ready.submission;
          completing = valid;
        };
        enough_next = record {
          requests = rw (queue, step.same.0) asks.1;
          sized = rw (step.same.0, step.same_size) en.sized.1;
          events = omega (arith, en.events, total);
          room = omega (arith, en.room, total);
          slots = omega (arith, en.slots, total, step.grown);
        };
        front_first = first;
      }

  -- A pass before those that served the rest.
  served_first :
      (v : Serving S) (c : Cqe) (m : Meanwhile) (later : List Meanwhile) (p : Pass v c m later)
      (rest : List Meanwhile) {es : List Sqe} {w : Worker} {s : S}
      → Serves b v.char_fd
          (written m.memory p.reached.worker)
          p.reached.store
          (all_posted (after_posts m p.reached) rest)
          (memories rest)
          es
          w
          s
      → Serves b v.char_fd v.worker v.store
          (all_posted v (m ∷ rest))
          (m.memory ∷ memories rest)
          (commit_sqe v.char_fd p.reached.worker (u16 c.user_data) p.step.result ∷ es)
          w
          s
  served_first v c m later p rest {es} {w} {s} others =
      subst
        (λ (cs : List Cqe).
          Serves b v.char_fd v.worker v.store cs (m.memory ∷ memories rest)
            (commit_sqe v.char_fd p.reached.worker (u16 c.user_data) p.step.result ∷ es) w s)
        (sym (p.front_first rest)) (served_one p.step.handled others)

  -- With a completion to start from, and room for what the loop queues, whatever the kernel writes
  -- meanwhile into the descriptor area and the buffers, the inner loop of `run` does not panic and ends when no completion is left: it has served the completions that waited and
  -- those that were posted meanwhile, each once and in the order of their arrival, and has appended
  -- one COMMIT_AND_FETCH entry for each, with its own answer and tag, to the pending entries.
  pub drain-Emptied :
      (posts : List Meanwhile) (v : Serving S) (c : Cqe)
      → IsReady b k kq v
      → peek_cqe v.cq ≡ some c
      → Enough v posts
      → Emptied v posts (drain b posts c v)
  unfolding drain go_on or_break
  drain-Emptied [] v c is peeked en = absurd (
      omega (
        arith,
        en.events,
        ap length (Comp.peeked_front kq v.cq is.completing peeked),
        length-append (Comp.completions kq v.cq) [],
      ))
  drain-Emptied (m ∷ later) v c is peeked en =
      let p = pass v c m later is peeked en in
      let v'' = after_posts m p.reached in
      elim (Option-cases (peek_cqe v''.cq)) [
        | inl done ↦
            let idle = Comp.peeked_none kq v''.cq p.ready_next.completing done in
            let e = commit_sqe v.char_fd p.reached.worker (u16 c.user_data) p.step.result in
            record {
              final = v'';
              ends = rw (p.made, done) refl;
              entries = e ∷ [];
              order = served_first v c m later p [] (
                  subst
                    (λ (cs : List Cqe).
                      Serves b v.char_fd v''.worker p.reached.store (cs ++ []) [] [] v''.worker
                        v''.store)
                    (sym idle) (served_none v''.worker p.reached.store));
              added = p.step.added;
              all_seen = idle;
              unmoved = p.step.unmoved;
              ready = p.ready_next;
              depth_kept = p.step.same.0;
              size_kept = p.step.same_size;
              flags = posted-SameFlags m.posted v.cq p.reached.cq p.step.seen;
            }
        | inr (c', more) ↦
            let rest = drain-Emptied later v'' c' p.ready_next more p.enough_next in
            record {
              final = rest.final;
              ends = rw (p.made, more) rest.ends;
              entries =
                  commit_sqe v.char_fd p.reached.worker (u16 c.user_data) p.step.result
                  ∷ rest.entries;
              order = served_first v c m later p (take (length rest.entries) later) (
                  subst
                    (λ (fd : ℤ).
                      Serves b fd v''.worker v''.store
                        (all_posted v'' (take (length rest.entries) later))
                        (memories (take (length rest.entries) later)) rest.entries rest.final.worker
                        rest.final.store)
                    p.step.same.1 rest.order);
              added =
                  rest.added
                  ∙ ap (λ (t : List Sqe). t ++ rest.entries) p.step.added
                  ∙ append_assoc (Sub.pending_sqes k v.sq) _ rest.entries;
              all_seen = rest.all_seen;
              unmoved = rest.unmoved ∙ p.step.unmoved;
              ready = rest.ready;
              depth_kept = rest.depth_kept ∙ p.step.same.0;
              size_kept = rest.size_kept ∙ p.step.same_size;
              flags =
                  SameFlags-trans v.cq v''.cq rest.final.cq
                    (posted-SameFlags m.posted v.cq p.reached.cq p.step.seen) rest.flags;
            }
      ]
