-- ===== src/System.antt =====
-- The system calls of ublk/device.go, ublk/worker.go and ublk/uring/uring.go: what the kernel
-- answers is a parameter, and each call leaves an event, so that a run is a log.
pub mod Kept
pub mod Granted
pub mod Added
pub mod Paths
use ublk_go.Prelude.{ℕ, Option, none, some, List, [], ◌∷◌}
use ublk_go.Prelude.Int.{ℤ}
use ublk_go.Types.{DevInfo}
use ublk_go.Uring.Sq.{Sq}

-- What a call returns: a value or an error.
pub data Ret (A : Type 0) : Type 0 where
  fine : A → Ret A
  fail : ℕ → Ret A

pub data DevicePath : Type 0 where
  control : DevicePath  -- /dev/ublk-control
  char_dev : ℕ → DevicePath  -- /dev/ublkc%d
  block_dev : ℕ → DevicePath  -- /dev/ublkb%d

-- Newest first in a log. A `Ret` is what the call returned.
pub data Event : Type 0 where
  opened : DevicePath → Ret ℕ → Event
  ring_made : ℕ → ℕ → Ret ℕ → Event  -- entries, flags
  event_made : Ret ℕ → Event
  epoll_made : Ret ℕ → Event
  epoll_added : ℕ → ℕ → Ret ℕ → Event  -- the epoll descriptor, the one added
  mapped : ℕ → ℕ → ℕ → Ret ℕ → Event  -- descriptor, offset, length
  entered : ℕ → ℕ → ℕ → Ret ℕ → Event  -- ring, count, flags
  reaped : ℕ → Ret ℤ → Event  -- ring, the result of the completion that WaitCQE returned
  slept : Event
  woken : ℕ → Event  -- a write to the eventfd
  joined : Event  -- wg.Wait
  unmapped : ℕ → Event
  closed : ℕ → Event

abbrev pub Log : Type 0
Log = List Event

-- The parts of `params` that io_uring_setup fills in.
pub record RingParams : Type 0 where
  pub sq_entries : ℕ
  pub cq_entries : ℕ
  pub sq_array : ℕ  -- SqOff.Array
  pub cq_cqes : ℕ  -- CqOff.Cqes

-- The kernel's answers, which may depend on all that was called before.
pub record Kernel : Type 0 where
  pub open_path : Log → DevicePath → Ret ℕ
  pub ring_setup : Log → ℕ → ℕ → Ret ℕ
  pub ring_params : Log → RingParams
  pub queue_memory : Log → Sq  -- what the rings hold when they are mapped
  pub eventfd : Log → Ret ℕ
  pub epoll_create : Log → Ret ℕ
  pub epoll_add : Log → ℕ → ℕ → Ret ℕ
  pub mmap : Log → ℕ → ℕ → ℕ → Ret ℕ
  pub enter : Log → ℕ → ℕ → ℕ → Ret ℕ
  pub reap : Log → ℕ → Ret ℤ
  pub fill_info : Log → DevInfo → DevInfo  -- what ADD_DEV writes back
  pub unmap_error : Log → ℕ → Option ℕ
  pub close_error : Log → ℕ → Option ℕ
  pub struct_addr : Log → ℕ  -- where the pinned structure of a command lies
  pub pid : ℕ

-- A method on an object: it may end with an error, and changes the object and the log in any case.
abbrev pub Act : Type 0 → Type 0 → Type 0
Act O A = Kernel → O → Log → Ret A × O × Log

-- `if err != nil { return err }` between two calls.
unfoldable pub then_do :
    {O A B : Type 0} → (A → Act O B) → Kernel → Ret A × O × Log → Ret B × O × Log
then_do f k (fine a, o, l) = f a k o l
then_do f k (fail e, o, l) = (fail e, o, l)

infixl 5 ◌>>=◌
unfoldable pub ◌>>=◌ : {O A B : Type 0} → Act O A → (A → Act O B) → Act O B
unfolding then_do
m >>= f = λ k o l. then_do f k (m k o l)

infixl 5 ◌>>◌
unfoldable pub ◌>>◌ : {O A B : Type 0} → Act O A → Act O B → Act O B
unfolding ◌>>=◌
m >> n = m >>= λ _. n

unfoldable pub give : {O A : Type 0} → A → Act O A
give a = λ k o l. (fine a, o, l)

unfoldable pub refuse : {O A : Type 0} → ℕ → Act O A
refuse e = λ k o l. (fail e, o, l)

unfoldable pub caught : {O A : Type 0} → Ret A × O × Log → Ret (Option ℕ) × O × Log
caught (fine a, o, l) = (fine none, o, l)
caught (fail e, o, l) = (fine (some e), o, l)

-- A call whose error the caller keeps or drops and goes on.
unfoldable pub attempt : {O A : Type 0} → Act O A → Act O (Option ℕ)
unfolding caught
attempt m = λ k o l. caught (m k o l)

-- A change of the object alone.
unfoldable pub change : {O : Type 0} → (O → O) → Act O Unit
change f = λ k o l. (fine tt, f o, l)

-- What a method reads of its object decides how it goes on.
unfoldable pub look : {O A : Type 0} → (O → Act O A) → Act O A
look f = λ k o l. f o k o l

-- The object keeps the answer of a call that did not fail.
unfoldable pub keep : {O A : Type 0} → (A → O → O) → Ret A → O → O
keep put (fine a) o = put a o
keep put (fail _) o = o

-- One system call: the answer, what the object keeps of it, and the event that it leaves.
unfoldable pub call :
    {O A : Type 0} → (Kernel → Log → Ret A) → (Ret A → Event) → (A → O → O) → Act O A
unfolding keep
call ask event put = λ k o l. let x = ask k l in (x, keep put x o, event x ∷ l)
