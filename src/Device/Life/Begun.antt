-- ===== src/Device/Life/Begun.antt =====
-- The device that `New` returns on a kernel that grants every call, as a queue in motion: its worker
-- has fetched every tag, so that what Serve/Tags says of a queue holds of it.
use ublk_go.Prelude.{
  ℕ, Bool, false, zero, suc, ◌+◌, ◌*◌, ◌^◌, ◌≤◌, ◌<◌, ◌≡◌, refl, sym, ◌∙◌, ap, subst, fun_ext, List,
  [], Option, none, some, arith, length, length-replicate, none_of_length,
}
use ublk_go.Prelude.Int.{ℤ, pos}
use ublk_go.Storage.{Backend}
use ublk_go.Types.{sizeof_io_desc}
use ublk_go.Uring.Sq.{Sq, flush_sq, consume, get_sqe64}
use ublk_go.Uring.Sq.Valid as Sub
use ublk_go.Uring.Sq.Quiet.{IsQuiet, all_taken, published, flushed_unread}
use ublk_go.Uring.Cq.{Cq}
use ublk_go.Uring.Cq.Queue as Comp
use ublk_go.Worker.{Worker}
use ublk_go.Worker.Buffers.{alloc_buffers, alloc_buffers-slice}
use ublk_go.Worker.Valid as Work
use ublk_go.Serve.{◌>>=◌, buffer_addr, fill_io, prepare_fetch, fetch_loop, Serving}
use ublk_go.Serve.Command.{HasBuffers, alloc_buffers-HasBuffers, fetch_loop-fetch_sqes}
use ublk_go.Serve.Tags.{Queue, Reach, here, later, flushes, with_sq, sqe_tags, cqe_tags}
use ublk_go.Serve.Tags.Count.{count, below}
use ublk_go.Serve.Tags.Moves.{everywhere}
use ublk_go.Uring.Entry.{Sqe, Cqe}
use ublk_go.Serve.Tags.Safety.{Started, tags_once}
use ublk_go.Serve.Tags.Taking.{takes_all}
use ublk_go.Device.{QueueWorker}
use ublk_go.Device.Queue.{new_worker, with_buffers, fetched, fetched_lem}
use ublk_go.Config.{ConfigOption, default_config, apply_options, validate}
use ublk_go.System.{Log}
use ublk_go.System.Granted.{Answers, granting, HasRings}
use ublk_go.Device.Life.Commands.{CameFrom}
use ublk_go.Device.Life.{Handle, made, new}
use ublk_go.Device.Life.Granted.{Starts, IsUp, validated_depth, new_grants}

-- The contents of the mapped descriptor area.
abbrev pub with_descs : List ℕ → Worker → Worker
with_descs descs w = record w { descs = descs }

module _ (fd : ℤ) (w : Worker) (descs : List ℕ) where
  fill_io-descs :
      (code tag : ℕ) (result : ℤ) (x : Option ℕ × Sq)
      → fill_io code fd (with_descs descs w) tag result x ≡ fill_io code fd w tag result x
  unfolding fill_io buffer_addr
  fill_io-descs code tag result (none, sq) = refl
  fill_io-descs code tag result (some i, sq) = refl

  prepare_fetch-descs :
      (tag : ℕ) (sq : Sq) → prepare_fetch fd (with_descs descs w) tag sq ≡ prepare_fetch fd w tag sq
  unfolding prepare_fetch
  prepare_fetch-descs tag sq = fill_io-descs _ tag (pos 0) (get_sqe64 sq)

  -- The loop of `init` does not read the descriptors.
  fetch_loop-descs :
      (n tag : ℕ) (sq : Sq) → fetch_loop n fd (with_descs descs w) tag sq ≡ fetch_loop n fd w tag sq
  unfolding fetch_loop
  fetch_loop-descs zero tag sq = refl
  fetch_loop-descs (suc n) tag sq =
      ap (λ (o : Option Sq). o >>= fetch_loop n fd (with_descs descs w) (tag + 1))
        (prepare_fetch-descs tag sq)
      ∙ ap (λ (go : Sq → Option Sq). prepare_fetch fd w tag sq >>= go)
          (fun_ext (λ r. fetch_loop-descs n (tag + 1) r))

-- The worker of a new device, with its buffers at `addr` and its descriptors mapped.
abbrev pub first_worker : ℕ → ℕ → ℕ → List ℕ → Worker
first_worker addr depth buf_size descs =
    with_descs descs (with_buffers addr (new_worker 0 depth buf_size))

module _ (addr depth buf_size : ℕ) (descs : List ℕ) (small : depth ≤ 4096)
    (some_bytes : 0 < buf_size) (mapped : length descs ≡ depth * sizeof_io_desc) where
  first_worker-HasBuffers : HasBuffers (first_worker addr depth buf_size descs)
  unfolding with_buffers new_worker
  first_worker-HasBuffers =
      alloc_buffers-HasBuffers (first_worker addr depth buf_size descs) addr refl some_bytes

  first_worker-IsValid : Work.IsValid (first_worker addr depth buf_size descs)
  unfolding with_buffers new_worker alloc_buffers
  first_worker-IsValid = record {
    deep = small;
    descs_all = mapped;
    pool_all = length-replicate (depth * buf_size) 0;
    bufs_all = λ tag lt.
        let (s, e, start, _, room, _) = alloc_buffers-slice addr depth buf_size tag lt in
        (s, e, start, room);
  }

-- What `run` of a new device's worker works on, for a backend in the state `s`.
abbrev pub first_serving : {S : Type 0} → ℕ → ℕ → ℕ → ℕ → QueueWorker → List ℕ → Cq → S → Serving S
first_serving addr depth buf_size fd q descs cq s = record {
  worker = first_worker addr depth buf_size descs;
  char_fd = pos fd;
  sq = q.ring.sq;
  cq = cq;
  store = s;
}

-- The new device is a queue in motion.
pub record Begun {S : Type 0} (b : Backend S) (kq depth : ℕ) (now : Serving S) : Type 0 where
  pub exponent : ℕ
  pub start : Queue S
  pub held : List ℕ
  pub started : Started b exponent kq start
  pub deep : depth ≤ 2 ^ exponent
  pub depth_is : start.serving.worker.depth ≡ depth
  pub same_store : start.serving.store ≡ now.store
  pub reached : Reach b start (record { serving = now; held = held })
  pub all_held : (t : ℕ) → count t held ≡ below depth t

-- With nothing pending, unread or completed every tag is with the kernel.
held_all :
    {S : Type 0} (k kq depth t : ℕ) (q : Queue S)
    → ((u : ℕ) → everywhere k kq u q ≡ below depth u)
    → IsQuiet q.serving.sq
    → Comp.waiting q.serving.cq ≡ 0
    → count t q.held ≡ below depth t
held_all k kq depth t q once quiet empty =
    let sq = q.serving.sq in
    omega (
      arith,
      once t,
      ap (λ (es : List Sqe). count t (sqe_tags es))
          (none_of_length (Sub.pending_sqes k sq) (Sub.pending-length k sq ∙ quiet.0)),
      ap (λ (es : List Sqe). count t (sqe_tags es))
          (none_of_length (Sub.queued_sqes k sq) (Sub.queued-length k sq ∙ quiet.1)),
      ap (λ (cs : List Cqe). count t (cqe_tags cs))
          (none_of_length (Comp.completions kq q.serving.cq)
            (Comp.waiting-length kq q.serving.cq ∙ empty)),
    )

module _ {S : Type 0} (b : Backend S) (addr depth buf_size kq fd : ℕ) (q : QueueWorker)
    (descs : List ℕ) (cq : Cq) (s : S) where
  Starts-Begun :
      Starts addr (new_worker 0 depth buf_size) fd q
      → depth ≤ 4096
      → 0 < buf_size
      → length descs ≡ depth * sizeof_io_desc
      → Comp.IsValid kq cq
      → Comp.waiting cq ≡ 0
      → depth ≤ 2 ^ kq
      → Begun b kq depth (first_serving addr depth buf_size fd q descs cq s)
  unfolding with_buffers new_worker
  Starts-Begun st small some_bytes mapped valid_cq empty wide =
      let k = st.exponent in
      let w = first_worker addr depth buf_size descs in
      let has = first_worker-HasBuffers addr depth buf_size descs small some_bytes mapped in
      let (sq, loops, valid, all, same) =
        fetch_loop-fetch_sqes k (pos fd) w has st.unused st.valid st.quiet.0 st.deep in
      let now_fetched : fetched addr (pos fd) (new_worker 0 depth buf_size) st.unused ≡ sq =
        fetched_lem addr (pos fd) (new_worker 0 depth buf_size) st.unused sq (
          sym (
            fetch_loop-descs (pos fd) (with_buffers addr (new_worker 0 depth buf_size)) descs depth
              0 st.unused)
          ∙ loops) in
      let read = same ∙ st.quiet.1 in
      let start : Queue S = record {
        serving = record { worker = w; char_fd = pos fd; sq = sq; cq = cq; store = s };
        held = [];
      } in
      let flushed : Queue S = record start { serving = with_sq (flush_sq sq).1 start.serving } in
      let (held, there) =
        takes_all b k start (flush_sq sq).0 flushed (published k sq valid read).valid
          (flushed_unread k sq valid read) (later here flushes) in
      let begun : Started b k kq start = record {
        working = first_worker-IsValid addr depth buf_size descs small some_bytes mapped;
        buffers = has;
        unused = st.unused;
        submission = st.valid;
        idle = st.quiet;
        fetched = loops;
        completing = valid_cq;
        quiet = empty;
        none_held = refl;
      } in
      let now =
        ap (λ (x : Sq). consume (flush_sq x).0 (flush_sq x).1) (sym now_fetched)
        ∙ sym st.submitted in
      let here_now : Queue S = record {
        serving = first_serving addr depth buf_size fd q descs cq s;
        held = held;
      } in
      let reached : Reach b start here_now =
        subst
          (λ (x : Sq). Reach b start (record { serving = with_sq x start.serving; held = held }))
          now there in
      let quiet = subst IsQuiet now (all_taken k sq valid read).1 in
      record {
        exponent = k;
        start = start;
        held = held;
        started = begun;
        deep = st.deep;
        depth_is = refl;
        same_store = refl;
        reached = reached;
        all_held = λ t.
            held_all k kq depth t here_now
              (tags_once b k kq start begun st.deep wide here_now reached).0 quiet empty;
      }

-- On a kernel that grants every call, with new rings as large as asked for and unused, `New` with a
-- backend and a configuration that `validate` accepts returns a device that came up - the
-- kernel read ADD_DEV, SET_PARAMS and START_DEV, in this order and the last once the worker was
-- started - and whose queue has begun: for any contents of the descriptor area, any empty completion
-- queue that has room for all tags, and any state of the backend, `init` ran to its end on a ring with
-- an entry for each tag, and from there the queue came to where it is by what `Submit` publishes and
-- the kernel takes, so that all of its tags are with the kernel.
pub new_begins :
    {S : Type 0} (a : Answers) (has : HasRings a) (b : Backend S) (addr kq : ℕ)
    (has_discarder has_zeroer : Bool) (size : ℕ) (opts : List ConfigOption) (l : Log)
    (descs : List ℕ) (cq : Cq) (s : S)
    → let depth = (apply_options opts default_config).queue_depth in
      validate (apply_options opts default_config) size ≡ none
      → length descs ≡ depth * sizeof_io_desc
      → Comp.IsValid kq cq
      → Comp.waiting cq ≡ 0
      → depth ≤ 2 ^ kq
      → (h : Handle) × (l' : Log) × (new addr has_discarder has_zeroer false size opts
            (granting a)
            l
          ≡ (made h, l'))
        × CameFrom a addr (apply_options opts default_config) size l h.device l'
        × (up : IsUp addr depth h.device) × Begun b kq depth
            (first_serving addr depth up.buf_size up.char_fd up.worker descs cq s)
new_begins a has b addr kq has_discarder has_zeroer size opts l descs cq s ok mapped valid empty
      wide =
    let cfg = apply_options opts default_config in
    let (h, l', makes, up, came, _) =
      new_grants a has addr has_discarder has_zeroer size opts l ok in
    (
      h,
      l',
      makes,
      came,
      up,
      Starts-Begun b addr cfg.queue_depth up.buf_size kq up.char_fd up.worker descs cq s up.starts
          (validated_depth cfg size ok).1 up.some_bytes mapped valid empty wide,
    )
