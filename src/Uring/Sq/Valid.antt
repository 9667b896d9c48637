-- ===== src/Uring/Sq/Valid.antt =====
-- The representation invariant of the submission queue, and the queues that it stands for.
use ublk_go.Prelude.{
  ℕ, ◌+◌, ◌-◌, ◌%◌, ◌^◌, ◌≤◌, ◌<◌, ◌≡◌, List, map, arith, length-map, ◌∙◌, bit_and, length, get_or,
}
use ublk_go.Go.Words.{u32, sub_u32}
use ublk_go.Go.Bits.Mask.{bit_and-mask, u32-mod-pow}
use ublk_go.Uring.Entry.{Sqe, zero_sqe}
use ublk_go.Uring.Window.{window, length-window}
use ublk_go.Uring.Sq.{Sq}

-- Entries that the code has filled and not yet published.
abbrev pub pending : Sq → ℕ
pending r = sub_u32 r.local_tail r.local_head

-- Entries that are published and that the kernel has not yet read.
abbrev pub unread : Sq → ℕ
unread r = sub_u32 r.tail r.head

-- A ring of 2 ^ k entries between two calls of its methods. The kernel allows at most 2 ^ 15.
pub record IsValid (k : ℕ) (r : Sq) : Type 0 where
  pub small : k ≤ 30
  pub entries_pow : r.entries ≡ 2 ^ k
  pub mask_pow : r.mask ≡ 2 ^ k - 1
  pub slots_all : length r.slots ≡ 2 ^ k
  pub array_all : length r.array ≡ 2 ^ k
  pub flushed : r.tail ≡ r.local_head
  pub head_word : r.head < 2 ^ 32
  pub tail_word : r.tail < 2 ^ 32
  pub local_word : r.local_tail < 2 ^ 32
  pub pending_fits : pending r ≤ 2 ^ k
  pub unread_fits : unread r ≤ 2 ^ k
  pub named :
      (j : ℕ) → j < unread r → get_or r.array ((r.head + j) % 2 ^ k) 0 ≡ (r.head + j) % 2 ^ k

-- The entries that wait for `flushSQ`, oldest first.
abbrev pub pending_sqes : ℕ → Sq → List Sqe
pending_sqes k r = window (zero_sqe 0) (2 ^ k) r.slots r.local_head (pending r)

-- What the kernel will read: it follows `array` from `head` to `tail`.
abbrev pub queued_sqes : ℕ → Sq → List Sqe
queued_sqes k r =
    map (λ i. get_or r.slots i (zero_sqe 0)) (window 0 (2 ^ k) r.array r.head (unread r))

pub pending-length : (k : ℕ) (r : Sq) → length (pending_sqes k r) ≡ pending r
pending-length k r = length-window (zero_sqe 0) (2 ^ k) r.slots r.local_head (pending r)

pub queued-length : (k : ℕ) (r : Sq) → length (queued_sqes k r) ≡ unread r
queued-length k r =
    length-map (window 0 (2 ^ k) r.array r.head (unread r)) _
    ∙ length-window 0 (2 ^ k) r.array r.head (unread r)

-- Masking a wrapped index.
pub slot_index : (k m a : ℕ) → k ≤ 30 → m ≡ 2 ^ k - 1 → bit_and (u32 a) m ≡ a % 2 ^ k
slot_index k m a h e = rw (e, bit_and-mask k (u32 a)) (u32-mod-pow k a (omega arith))

pub slot_index_word : (k m a : ℕ) → m ≡ 2 ^ k - 1 → bit_and a m ≡ a % 2 ^ k
slot_index_word k m a e = rw e (bit_and-mask k a)
