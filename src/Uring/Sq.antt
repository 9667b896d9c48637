-- ===== src/Uring/Sq.antt =====
-- The submission queue of ublk/uring/uring.go: `nextSQE`, `GetSQE128`, `GetSQE64`, `flushSQ`.
pub mod Valid
pub mod Refine
pub mod Flush
pub mod Reading
pub mod Slots
pub mod Quiet
use ublk_go.Prelude.{
  ℕ, zero, suc, ◌+◌, ◌<◌, List, Option, none, some, set, get_or, leb, ◌==◌, if◌then◌else◌, bit_and,
}
use ublk_go.Go.Words.{u32, sub_u32}
use ublk_go.Uring.Entry.{Sqe, zero_sqe, sqe128_cmd, sqe64_cmd}

-- The fields of `Ring` that belong to submission. `head` is advanced by the kernel; `tail`, `array`
-- and `slots` are the shared memory that the code writes.
pub record Sq : Type 0 where
  pub head : ℕ  -- *sqHead
  pub tail : ℕ  -- *sqTail
  pub mask : ℕ  -- *sqMask
  pub array : List ℕ  -- sqArray
  pub slots : List Sqe  -- sqeBase
  pub local_head : ℕ  -- sqeLocalHead
  pub local_tail : ℕ  -- sqeLocalTail
  pub entries : ℕ  -- sqEntries

-- The last lines of `nextSQE`.
unfoldable pub take_slot : Sq → Option ℕ × Sq
take_slot r = (some (bit_and r.local_tail r.mask), record r { local_tail = u32 (r.local_tail + 1) })

-- The index of the slot stands for the pointer to it.
unfoldable pub next_sqe : Sq → Option ℕ × Sq
unfolding take_slot
next_sqe r =
    let reloaded = record r { local_head = r.head } in
    if leb r.entries (sub_u32 r.local_tail r.local_head)
    then if leb r.entries (sub_u32 r.local_tail r.head)
      then (none, reloaded)
      else take_slot reloaded
    else take_slot r

-- Writing through the pointer that `GetSQE128` or `GetSQE64` returned.
abbrev pub write_sqe : ℕ → Sqe → Sq → Sq
write_sqe i e r = record r { slots = set r.slots i e }

unfoldable pub zero_slot : ℕ → Option ℕ × Sq → Option ℕ × Sq
zero_slot n (none, r) = (none, r)
zero_slot n (some i, r) = (some i, write_sqe i (zero_sqe n) r)

unfoldable pub get_sqe128 : Sq → Option ℕ × Sq
unfolding zero_slot
get_sqe128 r = zero_slot sqe128_cmd (next_sqe r)

unfoldable pub get_sqe64 : Sq → Option ℕ × Sq
unfolding zero_slot
get_sqe64 r = zero_slot sqe64_cmd (next_sqe r)

-- The loop of `flushSQ`, by the rounds that are left.
unfoldable pub flush_loop : ℕ → ℕ → ℕ → ℕ → List ℕ → List ℕ
flush_loop zero i head mask array = array
flush_loop (suc n) i head mask array =
    let idx = bit_and (u32 (head + i)) mask in flush_loop n (i + 1) head mask (set array idx idx)

unfoldable pub flush_sq : Sq → ℕ × Sq
flush_sq r =
    let count = sub_u32 r.local_tail r.local_head in
    if count == 0 then (0, r) else (
      count,
      record r {
        array = flush_loop count 0 r.local_head r.mask r.array;
        tail = r.local_tail;
        local_head = r.local_tail;
      },
    )

-- What the kernel does: it reads the entry that the array names at its head, and moves on.
unfoldable pub front_sqe : Sq → Sqe
front_sqe r = get_or r.slots (get_or r.array (bit_and r.head r.mask) 0) (zero_sqe 0)

unfoldable pub take_sqe : Sq → Sq
take_sqe r = record r { head = u32 (r.head + 1) }

-- The kernel has taken `n` entries.
abbrev pub consume : ℕ → Sq → Sq
consume n r = record r { head = u32 (r.head + n) }
