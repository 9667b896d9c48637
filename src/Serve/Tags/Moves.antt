-- ===== src/Serve/Tags/Moves.antt =====
-- The invariant of a queue in motion, and that every step keeps it.
use ublk_go.Prelude.{
  ℕ, ◌+◌, ◌^◌, ◌≤◌, ◌<◌, ◌≡◌, ◌≢◌, refl, sym, ap, subst, ◌∙◌, inl, inr, true, false, List, [], ◌∷◌,
  ◌++◌, some, arith, length, length-append, Bool-cases,
}
use ublk_go.Prelude.Int.{is_neg}
use ublk_go.Go.Words.{u16}
use ublk_go.Storage.{Backend}
use ublk_go.Uring.Entry.{Sqe, Cqe}
use ublk_go.Uring.Sq.{flush_sq, front_sqe, take_sqe}
use ublk_go.Uring.Sq.Valid as Sub
use ublk_go.Uring.Sq.Flush.{flush_sq-Published}
use ublk_go.Uring.Sq.Reading.{take_sqe-front, take_sqe-pending}
use ublk_go.Uring.Cq.{Cq, peek_cqe, seen_cqe, post}
use ublk_go.Uring.Cq.Queue as Comp
use ublk_go.Serve.{io_sqe, buffer_addr, Serving, next, returned, serve_one}
use ublk_go.Uring.Sq.Valid.{pending-length, queued-length}
use ublk_go.Serve.Step as Served
use ublk_go.Serve.Step.{IsReady, serve_one-Step}
use ublk_go.Serve.Tags.{
  Queue, Step, serves, flushes, takes, completes, Reach, here, later, sqe_tags, cqe_tags, with_sq,
  arrived,
}
use ublk_go.Serve.Tags.Count.{
  count, count-append, sqe_tags-append, cqe_tags-append, below, lt_of_below, one_of,
}

module _ {S : Type 0} (k kq : ℕ) where
  -- How often a tag is anywhere: pending, published, with the kernel, or completed.
  abbrev pub everywhere : ℕ → Queue S → ℕ
  everywhere t q =
      count t (sqe_tags (Sub.pending_sqes k q.serving.sq))
      + count t (sqe_tags (Sub.queued_sqes k q.serving.sq))
      + count t q.held
      + count t (cqe_tags (Comp.completions kq q.serving.cq))

  abbrev pub total : Queue S → ℕ
  total q =
      Sub.pending q.serving.sq + Sub.unread q.serving.sq + length q.held + Comp.waiting q.serving.cq

module _ {S : Type 0} (b : Backend S) (k kq depth : ℕ) where
  pub record Inv (q : Queue S) : Type 0 where
    pub ready : IsReady b k kq q.serving
    pub depth_is : q.serving.worker.depth ≡ depth
    pub once : (t : ℕ) → everywhere k kq t q ≡ below depth t
    pub all : total k kq q ≡ depth

  -- The front of the completions is a tag of the queue.
  pub front_below :
      (q : Queue S) (c : Cqe) → Inv q → peek_cqe q.serving.cq ≡ some c → c.user_data < depth
  front_below q c i peeked =
      lt_of_below depth c.user_data (omega (arith, i.once c.user_data, counted))
    where
      counted : 0 < count c.user_data (cqe_tags (Comp.completions kq q.serving.cq))
      counted =
          subst (λ (cs : List Cqe). 0 < count c.user_data (cqe_tags cs))
            (sym (Comp.peeked_front kq q.serving.cq i.ready.completing peeked)) (ground arith)

  pub user_data_tag :
      (q : Queue S) (c : Cqe) → Inv q → c.user_data < depth → u16 c.user_data ≡ c.user_data
  user_data_tag q c i low = omega (arith, low, i.depth_is, i.ready.working.deep)

  -- A completion with an error makes `run` return.
  serve_one_stop :
      (c : Cqe) (v : Serving S)
      → is_neg c.res ≡ true
      → serve_one b c v ≡ some (returned (record v { cq = seen_cqe v.cq }))
  unfolding serve_one
  serve_one_stop c v negative = rw negative refl

  next_fine : (c : Cqe) (v v' : Serving S) → serve_one b c v ≡ some (next v') → is_neg c.res ≡ false
  next_fine c v v' e = elim (Bool-cases (is_neg c.res)) [
    | inl negative ↦ let stop = serve_one_stop c v negative in cc
    | inr fine ↦ fine
  ]

  next_inj : (v v' : Serving S) → some (next v) ≡ some (next v') → v ≡ v'
  next_inj v v' e = cc

  commit_tags :
      (es : List Sqe) (e : Sqe) (t u : ℕ)
      → e.user_data ≡ u
      → count t (sqe_tags (es ++ e ∷ [])) ≡ count t (sqe_tags es) + one_of t u
  commit_tags es e t u same =
      ap (count t) (sqe_tags-append es (e ∷ []))
      ∙ count-append t (sqe_tags es) (e.user_data ∷ [])
      ∙ ap (λ (x : ℕ). count t (sqe_tags es) + x) (rw same (omega arith))

  module _ (deep : depth ≤ 2 ^ k) (wide : depth ≤ 2 ^ kq) where
    -- A round of the inner loop that goes on is one that Serve/Step describes.
    pub served_step :
        (q : Queue S) (c : Cqe) (v : Serving S)
        → Inv q
        → peek_cqe q.serving.cq ≡ some c
        → serve_one b c q.serving ≡ some (next v)
        → Served.Step b k kq q.serving c v
          × (c.user_data < depth)
          × (Sub.unread q.serving.sq + Sub.pending q.serving.sq < 2 ^ k)
    served_step q c v i peeked e =
        let busy = Comp.peeked_waiting kq q.serving.cq i.ready.completing peeked in
        let low = front_below q c i peeked in
        let room : Sub.unread q.serving.sq + Sub.pending q.serving.sq < 2 ^ k =
          omega (arith, i.all, busy, deep) in
        let (v', made, st) =
          serve_one-Step b k kq q.serving c i.ready
            (record {
              fine = next_fine c q.serving v e;
              listed = rw (user_data_tag q c i low) (omega (arith, low, i.depth_is));
            })
            busy (omega (arith, room)) in
        (
          subst (λ (u : Serving S). Served.Step b k kq q.serving c u) (next_inj v' v (sym made ∙ e))
              st,
          low,
          room,
        )

    serves-Inv :
        (q : Queue S) (c : Cqe) (v : Serving S)
        → Inv q
        → peek_cqe q.serving.cq ≡ some c
        → serve_one b c q.serving ≡ some (next v)
        → Inv (record q { serving = v })
    unfolding io_sqe
    serves-Inv q c v i peeked e =
        let front = Comp.peeked_front kq q.serving.cq i.ready.completing peeked in
        let (st, low, room) = served_step q c v i peeked e in
        record {
          ready = st.ready;
          depth_is = st.same.0 ∙ i.depth_is;
          once = λ t. omega (
            arith,
            i.once t,
            ap (λ (es : List Sqe). count t (sqe_tags es)) st.added
                ∙ commit_tags (Sub.pending_sqes k q.serving.sq) _ t c.user_data
                    (user_data_tag q c i low),
            ap (λ (es : List Sqe). count t (sqe_tags es)) (st.kept room),
            ap (λ (cs : List Cqe). count t (cqe_tags cs)) front,
            ap (λ (r : Cq). count t (cqe_tags (Comp.completions kq r))) st.seen,
          );
          all = omega (
            arith,
            i.all,
            st.grown,
            st.unmoved,
            ap Comp.waiting st.seen,
            ap length front,
            Comp.waiting-length kq q.serving.cq,
            Comp.waiting-length kq (seen_cqe q.serving.cq),
          );
        }

    flushes-Inv :
        (q : Queue S)
        → Inv q
        → Inv (record q { serving = with_sq (flush_sq q.serving.sq).1 q.serving })
    flushes-Inv q i =
        let r = q.serving.sq in
        let p = flush_sq-Published k r i.ready.submission (omega (arith, i.all, deep)) in
        record {
          ready = record {
            working = i.ready.working;
            buffers = i.ready.buffers;
            submission = p.valid;
            completing = i.ready.completing;
          };
          depth_is = i.depth_is;
          once = λ t. omega (
            arith,
            i.once t,
            ap (λ (es : List Sqe). count t (sqe_tags es)) p.none_left,
            ap (λ (es : List Sqe). count t (sqe_tags es)) p.queue,
            ap (count t) (sqe_tags-append (Sub.queued_sqes k r) (Sub.pending_sqes k r)),
            count-append t (sqe_tags (Sub.queued_sqes k r)) (sqe_tags (Sub.pending_sqes k r)),
          );
          all = omega (
            arith,
            i.all,
            ap length p.none_left,
            pending-length k (flush_sq r).1,
            ap length p.queue,
            queued-length k (flush_sq r).1,
            queued-length k r,
            pending-length k r,
            length-append (Sub.queued_sqes k r) (Sub.pending_sqes k r),
          );
        }

    takes-Inv :
        (q : Queue S)
        → Sub.unread q.serving.sq ≢ 0
        → Inv q
        → Inv (record {
          serving = with_sq (take_sqe q.serving.sq) q.serving;
          held = (front_sqe q.serving.sq).user_data ∷ q.held;
        })
    takes-Inv q some_unread i =
        let r = q.serving.sq in
        let (valid, queue) = take_sqe-front k r i.ready.submission some_unread in
        record {
          ready = record {
            working = i.ready.working;
            buffers = i.ready.buffers;
            submission = valid;
            completing = i.ready.completing;
          };
          depth_is = i.depth_is;
          once = λ t. omega (
            arith,
            i.once t,
            ap (λ (es : List Sqe). count t (sqe_tags es)) queue,
            ap (λ (es : List Sqe). count t (sqe_tags es)) (take_sqe-pending k r),
          );
          all = omega (
            arith,
            i.all,
            ap length queue,
            queued-length k r,
            queued-length k (take_sqe r),
            ap length (take_sqe-pending k r),
            pending-length k r,
            pending-length k (take_sqe r),
          );
        }

    completes-Inv :
        (q : Queue S) (before after : List ℕ) (c : Cqe) (descs pool : List ℕ)
        → q.held ≡ before ++ c.user_data ∷ after
        → length descs ≡ length q.serving.worker.descs
        → length pool ≡ length q.serving.worker.pool
        → Inv q
        → Inv (record { serving = arrived descs pool c q.serving; held = before ++ after })
    unfolding buffer_addr
    completes-Inv q before after c descs pool holds same_descs same_pool i =
        let r = q.serving.cq in
        let held_one = ap length holds ∙ length-append before (c.user_data ∷ after) in
        let (valid, queue) =
          Comp.post-append kq r c i.ready.completing (omega (arith, i.all, wide, held_one)) in
        record {
          ready = record {
            working = record {
              deep = i.ready.working.deep;
              descs_all = same_descs ∙ i.ready.working.descs_all;
              pool_all = same_pool ∙ i.ready.working.pool_all;
              bufs_all = i.ready.working.bufs_all;
            };
            buffers = i.ready.buffers;
            submission = i.ready.submission;
            completing = valid;
          };
          depth_is = i.depth_is;
          once = λ t. omega (
            arith,
            i.once t,
            ap (count t) holds ∙ count-append t before (c.user_data ∷ after),
            count-append t before after,
            ap (λ (cs : List Cqe). count t (cqe_tags cs)) queue,
            ap (count t) (cqe_tags-append (Comp.completions kq r) (c ∷ [])),
            count-append t (cqe_tags (Comp.completions kq r)) (c.user_data ∷ []),
          );
          all = omega (
            arith,
            i.all,
            held_one,
            length-append before after,
            ap length queue,
            length-append (Comp.completions kq r) (c ∷ []),
            Comp.waiting-length kq r,
            Comp.waiting-length kq (post c r),
          );
        }

    pub Step-Inv : {q q' : Queue S} → Step b q q' → Inv q → Inv q'
    Step-Inv {q} (serves {c} {v} peeked e) i = serves-Inv q c v i peeked e
    Step-Inv {q} flushes i = flushes-Inv q i
    Step-Inv {q} (takes some_unread) i = takes-Inv q some_unread i
    Step-Inv {q} (completes before after c descs pool holds same_descs same_pool) i =
        completes-Inv q before after c descs pool holds same_descs same_pool i

    pub Reach-Inv : {q q' : Queue S} → Inv q → Reach b q q' → Inv q'
    Reach-Inv i here = i
    Reach-Inv i (later r st) = Step-Inv st (Reach-Inv i r)
