-- ===== src/Uring/Cq.antt =====
-- The completion queue of ublk/uring/uring.go: `PeekCQE`, `SeenCQE`, `WaitCQE`, `Cancel`.
pub mod Queue
pub mod Wait
pub mod Kept
pub mod Arrival
use ublk_go.Prelude.{
  ℕ, ◌+◌, ◌≡◌, Bool, true, false, List, [], ◌∷◌, ◌++◌, Option, none, some, get_or, set, ◌==◌,
  if◌then◌else◌, bit_and,
}
use ublk_go.Go.Words.{u32}
use ublk_go.Uring.Entry.{Cqe, zero_cqe}

-- The fields of `Ring` that belong to completion. `tail` and `cqes` are written by the kernel.
pub record Cq : Type 0 where
  pub head : ℕ  -- *cqHead
  pub tail : ℕ  -- *cqTail
  pub mask : ℕ  -- *cqMask
  pub cqes : List Cqe  -- cqeBase
  pub cancel_fd : Option ℕ  -- cancelFD, `none` for -1
  pub cancelled : Bool
  pub signals : ℕ  -- the counter of the eventfd behind cancelFD

-- `(*CQE)(unsafe.Add(r.cqeBase, uintptr(idx)*cqeSize))`
unfoldable pub front : Cq → Cqe
front r = get_or r.cqes (bit_and r.head r.mask) zero_cqe

unfoldable pub peek_cqe : Cq → Option Cqe
unfolding front
peek_cqe r = if r.head == r.tail then none else some (front r)

unfoldable pub seen_cqe : Cq → Cq
seen_cqe r = record r { head = u32 (r.head + 1) }

-- `Cancel` sets the flag and adds 1 to the counter of the eventfd.
unfoldable pub cancel : Cq → Cq
cancel r =
    let flagged = record r { cancelled = true } in
    elim r.cancel_fd [ none ↦ flagged | some _ ↦ record flagged { signals = r.signals + 1 } ]

-- What `epoll_wait` returns.
pub data Epoll : Type 0 where
  interrupted : Epoll  -- EINTR
  failed : ℕ → Epoll  -- any other error
  ready : List ℕ → Epoll  -- the descriptors of the events

-- What happens to the ring while `epoll_wait` blocks, and what it then returns: completions that the
-- kernel posts, and whether another goroutine calls `Cancel`.
pub record Wake : Type 0 where
  pub posted : List Cqe
  pub cancels : Bool
  pub returns : Epoll

-- The kernel posts a completion at the tail.
unfoldable pub post : Cqe → Cq → Cq
post c r = record r { cqes = set r.cqes (bit_and r.tail r.mask) c; tail = u32 (r.tail + 1) }

unfoldable pub post_all : List Cqe → Cq → Cq
unfolding post
post_all [] r = r
post_all (c ∷ cs) r = post_all cs (post c r)

unfoldable pub elapse : Wake → Cq → Cq
unfolding post_all cancel
elapse w r = let r' = post_all w.posted r in if w.cancels then cancel r' else r'

-- `blocked`: the events given are used up and the call has not returned.
pub data WaitResult : Type 0 where
  completion : Cqe → WaitResult
  err_cancelled : WaitResult
  err_epoll : ℕ → WaitResult
  blocked : WaitResult

-- The `for` over the events of one `epoll_wait`.
unfoldable pub is_cancel_fd : Option ℕ → ℕ → Bool
is_cancel_fd none fd = false
is_cancel_fd (some c) fd = fd == c

unfoldable pub has_cancel : Option ℕ → List ℕ → Bool
unfolding is_cancel_fd
has_cancel c [] = false
has_cancel c (fd ∷ fds) = if is_cancel_fd c fd then true else has_cancel c fds

-- The loop of `WaitCQE`; each pass that blocks uses up one event.
unfoldable pub wait_cqe : List Wake → Cq → WaitResult × Cq
unfolding front
wait_cqe [] r = (
  if r.cancelled then err_cancelled else if r.head == r.tail then blocked else completion (front r),
  r,
)
wait_cqe (w ∷ ws) r =
    let again = wait_cqe ws (elapse w r) in
    if r.cancelled
    then (err_cancelled, r)
    else if r.head == r.tail
    then elim w.returns [
      | interrupted ↦ again
      | failed e ↦ (err_epoll e, elapse w r)
      | ready fds ↦ if has_cancel r.cancel_fd fds then (err_cancelled, elapse w r) else again
    ]
    else (completion (front r), r)
