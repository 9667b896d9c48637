-- ===== src/System/Granted.antt =====
-- A kernel that grants every call.
use ublk_go.Prelude.{ℕ, ◌^◌, ◌≤◌, ◌≡◌, ◌-◌, [], ◌∷◌, Option, length}
use ublk_go.Prelude.Int.{pos}
use ublk_go.Types.{DevInfo}
use ublk_go.Uring.Sq.{Sq}
use ublk_go.System.{
  fine, DevicePath, opened, ring_made, event_made, epoll_made, epoll_added, mapped, entered, reaped,
  slept, woken, joined, unmapped, closed, Log, RingParams, Kernel,
}

-- The numbers that it answers with, which may depend on all that was called before. Releasing may
-- report errors all the same: the code does not act on them.
pub record Answers : Type 0 where
  pub path_fd : Log → DevicePath → ℕ
  pub ring_fd : Log → ℕ → ℕ → ℕ
  pub ring_params : Log → RingParams
  pub queue_memory : Log → Sq
  pub event_fd : Log → ℕ
  pub epoll_fd : Log → ℕ
  pub address : Log → ℕ → ℕ → ℕ → ℕ
  pub result : Log → ℕ → ℕ  -- of a command
  pub fill_info : Log → DevInfo → DevInfo
  pub unmap_error : Log → ℕ → Option ℕ
  pub close_error : Log → ℕ → Option ℕ
  pub struct_addr : Log → ℕ
  pub pid : ℕ

-- io_uring_enter takes all entries that it is given.
abbrev pub granting : Answers → Kernel
granting a = record {
  open_path = λ l p. fine (a.path_fd l p);
  ring_setup = λ l n f. fine (a.ring_fd l n f);
  ring_params = a.ring_params;
  queue_memory = a.queue_memory;
  eventfd = λ l. fine (a.event_fd l);
  epoll_create = λ l. fine (a.epoll_fd l);
  epoll_add = λ l e f. fine 0;
  mmap = λ l fd off n. fine (a.address l fd off n);
  enter = λ l fd n f. fine n;
  reap = λ l fd. fine (pos (a.result l fd));
  fill_info = a.fill_info;
  unmap_error = a.unmap_error;
  close_error = a.close_error;
  struct_addr = a.struct_addr;
  pid = a.pid;
}

-- How many entries the newest ring of a log was asked for.
abbrev pub newest : Log → ℕ
newest [] = 0
newest (ring_made n _ _ ∷ l) = n
newest (opened _ _ ∷ l) = newest l
newest (event_made _ ∷ l) = newest l
newest (epoll_made _ ∷ l) = newest l
newest (epoll_added _ _ _ ∷ l) = newest l
newest (mapped _ _ _ _ ∷ l) = newest l
newest (entered _ _ _ _ ∷ l) = newest l
newest (reaped _ _ ∷ l) = newest l
newest (slept ∷ l) = newest l
newest (woken _ ∷ l) = newest l
newest (joined ∷ l) = newest l
newest (unmapped _ ∷ l) = newest l
newest (closed _ ∷ l) = newest l

-- The memory of a new ring of 2 ^ k entries.
pub record IsUnused (k : ℕ) (r : Sq) : Type 0 where
  pub head_start : r.head ≡ 0
  pub tail_start : r.tail ≡ 0
  pub mask_pow : r.mask ≡ 2 ^ k - 1
  pub array_all : length r.array ≡ 2 ^ k
  pub slots_all : length r.slots ≡ 2 ^ k

-- A new ring has as many entries as it was asked for, if that is a power of two, and none is in use.
pub record HasRings (a : Answers) : Type 0 where
  pub sized : (l : Log) (k : ℕ) → k ≤ 30 → newest l ≡ 2 ^ k → (a.ring_params l).sq_entries ≡ 2 ^ k
  pub unused : (l : Log) (k : ℕ) → k ≤ 30 → newest l ≡ 2 ^ k → IsUnused k (a.queue_memory l)
