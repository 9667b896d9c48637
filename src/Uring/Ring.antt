-- ===== src/Uring/Ring.antt =====
-- The life of a ring of ublk/uring/uring.go: `setup`, `mmapRings`, `setupCancel`, `Submit`,
-- `SubmitAndWait`, `Cancel` and `Close`, as calls of the system.
pub mod Closing
pub mod Balance
pub mod Granted
use ublk_go.Prelude.{ℕ, ◌+◌, ◌*◌, ◌^◌, ◌==◌, Option, none, some, List, [], ◌∷◌, ◌++◌, if◌then◌else◌}
use ublk_go.Uring.Round.{round_up2}
use ublk_go.Uring.Sq.{Sq, flush_sq, consume}
use ublk_go.Go.Words.{u32}
use ublk_go.System.{
  Ret, fine, fail, Event, ring_made, event_made, epoll_made, epoll_added, mapped, entered, woken,
  unmapped, closed, Log, RingParams, Kernel, Act, ◌>>=◌, ◌>>◌, give, refuse, change, look, call,
}

-- The descriptors of `Ring`, `none` for -1, its mappings, `none` for nil, and its submission queue.
pub record Ring : Type 0 where
  pub fd : Option ℕ
  pub cancel_fd : Option ℕ
  pub epoll_fd : Option ℕ
  pub map_sq : Option ℕ
  pub map_cq : Option ℕ
  pub map_sqes : Option ℕ
  pub params : RingParams
  pub sqe_size : ℕ
  pub sq : Sq

abbrev pub off_sq_ring : ℕ
off_sq_ring = 0

abbrev pub off_cq_ring : ℕ
off_cq_ring = 0x8000000

abbrev pub off_sqes : ℕ
off_sqes = 0x10000000

abbrev pub setup_sqe128 : ℕ
setup_sqe128 = 2 ^ 10

abbrev pub enter_getevents : ℕ
enter_getevents = 1

abbrev pub sqe128_size : ℕ
sqe128_size = 128

abbrev pub sqe64_size : ℕ
sqe64_size = 64

abbrev pub cqe_size : ℕ
cqe_size = 16

abbrev pub ebadf : ℕ
ebadf = 9

-- A call on a descriptor, which the kernel refuses if it is -1.
unfoldable pub on_fd : {O A : Type 0} → Option ℕ → (ℕ → Act O A) → Act O A
unfolding refuse
on_fd none f = refuse ebadf
on_fd (some fd) f = f fd

-- `unix.Mmap` of the ring's descriptor.
unfoldable pub mmap_ring : ℕ → ℕ → (ℕ → Ring → Ring) → Act Ring ℕ
mmap_ring off len put =
    look (λ r. on_fd r.fd (λ fd. call (λ k l. k.mmap l fd off len) (mapped fd off len) put))

unfoldable pub sq_ring_size : Ring → ℕ
sq_ring_size r = r.params.sq_array + r.params.sq_entries * 4

unfoldable pub cq_ring_size : Ring → ℕ
cq_ring_size r = r.params.cq_cqes + r.params.cq_entries * cqe_size

unfoldable pub sqes_size : Ring → ℕ
sqes_size r = r.params.sq_entries * r.sqe_size

-- The queue as the mapped memory holds it, with the local fields at zero.
unfoldable pub point_queue : Act Ring Unit
point_queue = λ k r l. (
  fine tt,
  record r {
    sq = record (k.queue_memory l) {
      local_head = 0;
      local_tail = 0;
      entries = r.params.sq_entries;
    };
  },
  l,
)

unfoldable pub mmap_rings : Act Ring Unit
mmap_rings = look (λ r. do
  mmap_ring off_sq_ring (sq_ring_size r) (λ a r'. record r' { map_sq = some a })
  mmap_ring off_cq_ring (cq_ring_size r) (λ a r'. record r' { map_cq = some a })
  mmap_ring off_sqes (sqes_size r) (λ a r'. record r' { map_sqes = some a })
  point_queue)

-- `unix.EpollCtl` with `EPOLL_CTL_ADD`.
unfoldable pub epoll_add_to : Option ℕ → Option ℕ → Act Ring ℕ
epoll_add_to epfd fd =
    on_fd epfd (λ e. on_fd fd (λ f. call (λ k l. k.epoll_add l e f) (epoll_added e f) (λ _ r. r)))

unfoldable pub setup_cancel : Act Ring ℕ
setup_cancel = do
  call (λ k l. k.eventfd l) event_made (λ fd r. record r { cancel_fd = some fd })
  call (λ k l. k.epoll_create l) epoll_made (λ fd r. record r { epoll_fd = some fd })
  look (λ r. epoll_add_to r.epoll_fd r.fd)
  look (λ r. epoll_add_to r.epoll_fd r.cancel_fd)

-- The errors of one release.
abbrev pub errors : Option ℕ → List ℕ
errors none = []
errors (some e) = e ∷ []

unfoldable pub unmap_one : Kernel → Option ℕ → Log → List ℕ × Log
unmap_one k none l = ([], l)
unmap_one k (some a) l = (errors (k.unmap_error l a), unmapped a ∷ l)

unfoldable pub close_one : Kernel → Option ℕ → Log → List ℕ × Log
close_one k none l = ([], l)
close_one k (some fd) l = (errors (k.close_error l fd), closed fd ∷ l)

-- `Close`: what `errors.Join` is given, the ring with its descriptors at -1, and the log.
unfoldable pub close_ring : Kernel → Ring → Log → List ℕ × Ring × Log
close_ring k r l =
    let (e₁, l₁) = unmap_one k r.map_sq l in
    let (e₂, l₂) = unmap_one k r.map_cq l₁ in
    let (e₃, l₃) = unmap_one k r.map_sqes l₂ in
    let (e₄, l₄) = close_one k r.epoll_fd l₃ in
    let (e₅, l₅) = close_one k r.cancel_fd l₄ in
    let (e₆, l₆) = close_one k r.fd l₅ in
    (
      e₁ ++ (e₂ ++ (e₃ ++ (e₄ ++ (e₅ ++ e₆)))),
      record r { epoll_fd = none; cancel_fd = none; fd = none },
      l₆,
    )

-- `r.Close()` on the error paths of `setup`.
unfoldable pub close_on_error : {A : Type 0} → Kernel → Ret A × Ring × Log → Ret Ring × Log
close_on_error k (fine a, r, l) = (fine r, l)
close_on_error k (fail e, r, l) = (fail e, (close_ring k r l).2)

-- The rest of `setup`, once `io_uring_setup` has returned.
unfoldable pub open_ring : Kernel → ℕ → Log → Ret ℕ → Ret Ring × Log
open_ring k sqe_size l (fine fd) = close_on_error k (
    (mmap_rings >> setup_cancel) k
      (record {
        fd = some fd;
        cancel_fd = none;
        epoll_fd = none;
        map_sq = none;
        map_cq = none;
        map_sqes = none;
        params = k.ring_params l;
        sqe_size = sqe_size;
        sq = k.queue_memory l;
      })
      l)
open_ring k sqe_size l (fail e) = (fail e, l)

unfoldable pub setup : Kernel → ℕ → ℕ → ℕ → Log → Ret Ring × Log
setup k entries flags sqe_size l =
    let x = k.ring_setup l entries flags in open_ring k sqe_size (ring_made entries flags x ∷ l) x

unfoldable pub new_sqe128 : Kernel → ℕ → Log → Ret Ring × Log
new_sqe128 k entries l = setup k (round_up2 entries) setup_sqe128 sqe128_size l

unfoldable pub new_ring : Kernel → ℕ → Log → Ret Ring × Log
new_ring k entries l = setup k (round_up2 entries) 0 sqe64_size l

-- The kernel has taken the entries that io_uring_enter counts.
abbrev pub taken : ℕ → Ring → Ring
taken n r = record r { sq = consume n r.sq }

unfoldable pub enter_ring : ℕ → ℕ → Act Ring ℕ
enter_ring count flags =
    look (λ r.
      on_fd r.fd (λ fd. call (λ k l. k.enter l fd count flags) (entered fd count flags) taken))

unfoldable pub submit : Act Ring ℕ
submit = look (λ r.
    let (count, sq) = flush_sq r.sq in
    if count == 0 then give 0 else do change (λ r'. record r' { sq = sq }); enter_ring count 0)

unfoldable pub submit_and_wait : Act Ring ℕ
submit_and_wait = look (λ r.
    let (count, sq) = flush_sq r.sq in
    do change (λ r'. record r' { sq = sq }); enter_ring count enter_getevents)

-- `Cancel`, as a call: the write to the eventfd.
unfoldable pub wake_ring : Option ℕ → Log → Log
wake_ring none l = l
wake_ring (some fd) l = woken fd ∷ l
