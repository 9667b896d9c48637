-- ===== src/Serve/Command.antt =====
-- The commands that a worker queues: one for each tag, and none is dropped.
use mathlib.Core.List.{append-nil, append_assoc}
use ublk_go.Prelude.{
  ℕ, zero, suc, ◌+◌, ◌*◌, ◌^◌, ◌≤◌, ◌<◌, ◌≡◌, refl, sym, ◌∙◌, ap, ap₂, List, [], ◌∷◌, ◌++◌, Option,
  some, arith, length, length-append,
}
use ublk_go.Prelude.Int.{ℤ, pos}
use ublk_go.Go.Words.{sub_u32}
use ublk_go.Types.{u_io_fetch_req, u_io_commit_and_fetch_req}
use ublk_go.Uring.Entry.{Sqe, zero_sqe}
use ublk_go.Uring.Window.{window_empty}
use ublk_go.Uring.Sq.{Sq, get_sqe64, write_sqe}
use ublk_go.Uring.Sq.Valid.{IsValid, pending, unread, pending_sqes, queued_sqes, pending-length}
use ublk_go.Uring.Sq.Slots.{get_sqe64-Handed}
use ublk_go.Worker.{Worker}
use ublk_go.Worker.Buffers.{alloc_buffers, alloc_buffers-slice}
use ublk_go.Serve.{
  buffer_addr, io_sqe, fill_io, prepare_fetch, prepare_commit_and_fetch, fetch_loop,
}

-- The address of the buffer of a tag.
abbrev pub buffer_at : Worker → ℕ → ℕ
buffer_at w tag = w.pool_addr + tag * w.buf_size

-- A worker with buffers as `allocBuffers` makes them, that hold a byte at least.
abbrev pub HasBuffers : Worker → Type 0
HasBuffers w = (tag : ℕ) → tag < w.depth → buffer_addr w tag ≡ some (buffer_at w tag)

pub alloc_buffers-HasBuffers :
    (w : Worker) (addr : ℕ)
    → w.bufs ≡ (alloc_buffers addr w.depth w.buf_size).bufs
    → 0 < w.buf_size
    → HasBuffers w
unfolding buffer_addr
alloc_buffers-HasBuffers w addr made some_bytes tag lt =
    let (s, e, start, len, _, _) = alloc_buffers-slice addr w.depth w.buf_size tag lt in
    rw (made, e, start) (ground arith)

-- A ring to which one entry was added.
pub record Queued (k : ℕ) (sq : Sq) (e : Sqe) (sq' : Sq) : Type 0 where
  pub valid : IsValid k sq'
  pub added : pending_sqes k sq' ≡ pending_sqes k sq ++ e ∷ []
  pub unmoved : (sq'.head ≡ sq.head) × (sq'.tail ≡ sq.tail)
  pub kept : unread sq + pending sq < 2 ^ k → queued_sqes k sq' ≡ queued_sqes k sq

pub pending-Queued :
    (k : ℕ) (sq : Sq) (e : Sqe) (sq' : Sq) → Queued k sq e sq' → pending sq' ≡ pending sq + 1
pending-Queued k sq e sq' q =
    sym (pending-length k sq')
    ∙ ap length q.added
    ∙ length-append (pending_sqes k sq) (e ∷ [])
    ∙ ap (λ (n : ℕ). n + 1) (pending-length k sq)

-- The entry for a command: the tag is the entry's user data, and the command carries the queue,
-- the tag, the result and the buffer's address.
abbrev pub command_sqe : ℕ → ℤ → Worker → ℕ → ℤ → ℕ → Sqe
command_sqe code fd w tag result addr =
    io_sqe code fd tag (record { qid = w.qid; tag = tag; result = result; addr = addr })

module _ (k : ℕ) (fd : ℤ) (w : Worker) (tag : ℕ) (sq : Sq) {addr : ℕ} where
  fill_io-Queued :
      (code : ℕ) (result : ℤ)
      → buffer_addr w tag ≡ some addr
      → IsValid k sq
      → pending sq < 2 ^ k
      → (sq' : Sq) × (fill_io code fd w tag result (get_sqe64 sq) ≡ some sq')
        × Queued k sq (command_sqe code fd w tag result addr) sq'
  unfolding fill_io
  fill_io-Queued code result found v room =
      let h = get_sqe64-Handed k sq v room in
      let e = command_sqe code fd w tag result addr in
      (
        write_sqe h.slot e (get_sqe64 sq).1,
        ap (λ (o : Option ℕ). fill_io code fd w tag result (o, (get_sqe64 sq).1)) h.given
            ∙ rw found,
        record {
          valid = h.valid e;
          added = h.appended e;
          unmoved = h.unmoved;
          kept = λ room. h.kept room e;
        },
      )

  -- With a free slot `prepareFetch` queues FETCH_REQ for the tag.
  pub prepare_fetch-Queued :
      buffer_addr w tag ≡ some addr
      → IsValid k sq
      → pending sq < 2 ^ k
      → (sq' : Sq) × (prepare_fetch fd w tag sq ≡ some sq')
        × Queued k sq (command_sqe u_io_fetch_req fd w tag (pos 0) addr) sq'
  unfolding prepare_fetch
  prepare_fetch-Queued found v room = fill_io-Queued u_io_fetch_req (pos 0) found v room

  -- With a free slot `prepareCommitAndFetch` queues COMMIT_AND_FETCH_REQ for the tag, with the
  -- result.
  pub prepare_commit-Queued :
      (result : ℤ)
      → buffer_addr w tag ≡ some addr
      → IsValid k sq
      → pending sq < 2 ^ k
      → (sq' : Sq) × (prepare_commit_and_fetch fd w tag result sq ≡ some sq')
        × Queued k sq (command_sqe u_io_commit_and_fetch_req fd w tag result addr) sq'
  unfolding prepare_commit_and_fetch
  prepare_commit-Queued result found v room =
      fill_io-Queued u_io_commit_and_fetch_req result found v room

-- The FETCH_REQ entries for `n` tags from `tag` on.
abbrev pub fetch_sqes : ℤ → Worker → ℕ → ℕ → List Sqe
fetch_sqes fd w tag zero = []
fetch_sqes fd w tag (suc n) =
    command_sqe u_io_fetch_req fd w tag (pos 0) (buffer_at w tag) ∷ fetch_sqes fd w (tag + 1) n

module _ (k : ℕ) (fd : ℤ) (w : Worker) (bufs : HasBuffers w) where
  fetch_loop-Queued :
      (tag n : ℕ) (sq : Sq)
      → tag + n ≤ w.depth
      → IsValid k sq
      → pending sq + n ≤ 2 ^ k
      → (sq' : Sq) × (fetch_loop n fd w tag sq ≡ some sq')
        × IsValid k sq'
        × (pending_sqes k sq' ≡ pending_sqes k sq ++ fetch_sqes fd w tag n)
        × (unread sq' ≡ unread sq)
  unfolding fetch_loop
  fetch_loop-Queued tag zero sq within v room =
      (sq, refl, v, sym (append-nil (pending_sqes k sq)), refl)
  fetch_loop-Queued tag (suc n) sq within v room =
      let e = command_sqe u_io_fetch_req fd w tag (pos 0) (buffer_at w tag) in
      let (sq1, made, q) =
        prepare_fetch-Queued k fd w tag sq (bufs tag (omega arith)) v (omega arith) in
      let (sq2, loops, v2, all, same) =
        fetch_loop-Queued (tag + 1) n sq1 (omega arith) q.valid
          (omega (arith, pending-Queued k sq e sq1 q)) in
      (
        sq2,
        rw made loops,
        v2,
        all
            ∙ ap (λ (t : List Sqe). t ++ fetch_sqes fd w (tag + 1) n) q.added
            ∙ append_assoc (pending_sqes k sq) (e ∷ []) (fetch_sqes fd w (tag + 1) n),
        same ∙ ap₂ (λ (h t : ℕ). sub_u32 t h) q.unmoved.0 q.unmoved.1,
      )

  -- On a ring with no entry pending and at least as many entries as the queue has tags, the loop of
  -- `init` queues FETCH_REQ for each tag from 0 on, in order, each with the address of its own
  -- buffer, drops none, and does not change how many entries the kernel has to read.
  pub fetch_loop-fetch_sqes :
      (sq : Sq)
      → IsValid k sq
      → pending sq ≡ 0
      → w.depth ≤ 2 ^ k
      → (sq' : Sq) × (fetch_loop w.depth fd w 0 sq ≡ some sq')
        × IsValid k sq'
        × (pending_sqes k sq' ≡ fetch_sqes fd w 0 w.depth)
        × (unread sq' ≡ unread sq)
  fetch_loop-fetch_sqes sq v idle room =
      let (sq', loops, v', all, same) =
        fetch_loop-Queued 0 w.depth sq (omega arith) v (omega arith) in
      (
        sq',
        loops,
        v',
        all
            ∙ ap (λ (t : List Sqe). t ++ fetch_sqes fd w 0 w.depth)
                (window_empty (zero_sqe 0) (2 ^ k) sq.slots sq.local_head (pending sq) idle),
        same,
      )
