-- ===== src/Uring/Sq/Refine.antt =====
-- `nextSQE` and `GetSQE64`/`GetSQE128` append to the queue of pending entries, or report it full.
use ublk_go.Prelude.{
  ℕ, suc, ◌+◌, ◌%◌, ◌^◌, ◌≤◌, ◌<◌, ◌≡◌, ap, ◌∙◌, [], ◌∷◌, ◌++◌, none, some, arith, length-set,
  set-set,
}
use ublk_go.Go.Words.{u32}
use ublk_go.Go.Bits.Laws.{pow-two-pos, pow-two-le}
use ublk_go.Go.Bits.Mask.{u32-mod-pow}
use ublk_go.Uring.Entry.{Sqe, zero_sqe}
use ublk_go.Uring.Window.{window-snoc_set}
use ublk_go.Uring.Sq.{Sq, next_sqe, write_sqe}
use ublk_go.Uring.Sq.Valid.{IsValid, pending, pending_sqes, slot_index_word}

pub pow_small : {k : ℕ} {r : Sq} → IsValid k r → (0 < 2 ^ k) × (2 ^ k ≤ 2 ^ 30)
pow_small {k} v = (pow-two-pos k, pow-two-le k 30 v.small)

-- The ring after one more slot is handed out.
abbrev pub advanced : Sq → Sq
advanced r = record r { local_tail = u32 (r.local_tail + 1) }

pub next_sqe-free :
    {k : ℕ} {r : Sq}
    → IsValid k r
    → pending r < 2 ^ k
    → next_sqe r ≡ (some (r.local_tail % 2 ^ k), advanced r)
unfolding next_sqe
next_sqe-free {k} {r} v h = ground (arith, slot_index_word k r.mask r.local_tail v.mask_pow)

-- Loading the kernel's head does not help: it is never past the entries already published.
pub next_sqe-full :
    {k : ℕ} {r : Sq}
    → IsValid k r
    → pending r ≡ 2 ^ k
    → next_sqe r ≡ (none, record r { local_head = r.head })
unfolding next_sqe
next_sqe-full {k} {r} v h = ground (arith, pow_small v)

pub pending-advanced :
    {k : ℕ} {r : Sq} → IsValid k r → pending r < 2 ^ k → pending (advanced r) ≡ suc (pending r)
pending-advanced v h = omega (arith, pow_small v)

pub advanced-IsValid : {k : ℕ} {r : Sq} → IsValid k r → pending r < 2 ^ k → IsValid k (advanced r)
advanced-IsValid {k} {r} v h = record {
  small = v.small;
  entries_pow = v.entries_pow;
  mask_pow = v.mask_pow;
  slots_all = v.slots_all;
  array_all = v.array_all;
  flushed = v.flushed;
  head_word = v.head_word;
  tail_word = v.tail_word;
  local_word = omega arith;
  pending_fits = omega (arith, pow_small v);
  unread_fits = v.unread_fits;
  named = v.named;
}

pub write_sqe-IsValid :
    {k : ℕ} {r : Sq} (i : ℕ) (e : Sqe) → IsValid k r → IsValid k (write_sqe i e r)
write_sqe-IsValid {r} i e v = record {
  small = v.small;
  entries_pow = v.entries_pow;
  mask_pow = v.mask_pow;
  slots_all = length-set r.slots i e ∙ v.slots_all;
  array_all = v.array_all;
  flushed = v.flushed;
  head_word = v.head_word;
  tail_word = v.tail_word;
  local_word = v.local_word;
  pending_fits = v.pending_fits;
  unread_fits = v.unread_fits;
  named = v.named;
}

-- The slot that is handed out is the one after the pending entries.
next_index :
    {k : ℕ} {r : Sq} → IsValid k r → r.local_tail % 2 ^ k ≡ (r.local_head + pending r) % 2 ^ k
next_index {k} {r} v =
    ap (λ (t : ℕ). t % 2 ^ k) (wrapped v)
    ∙ u32-mod-pow k (r.local_head + pending r) (omega (arith, v.small))
  where
    wrapped : {j : ℕ} → IsValid j r → r.local_tail ≡ u32 (r.local_head + pending r)
    wrapped w = omega (arith, w.flushed, w.tail_word, w.local_word)

-- Filling it appends to them, whatever it held before.
pub fill_appends :
    {k : ℕ} {r : Sq} (e d : Sqe)
    → IsValid k r
    → pending r < 2 ^ k
    → pending_sqes k
        (write_sqe (r.local_tail % 2 ^ k) e (write_sqe (r.local_tail % 2 ^ k) d (advanced r)))
      ≡ pending_sqes k r ++ e ∷ []
fill_appends {k} {r} e d v h =
    rw (set-set r.slots (r.local_tail % 2 ^ k) d e, pending-advanced v h, next_index v)
      (window-snoc_set (zero_sqe 0) (2 ^ k) r.slots r.local_head (pending r) e h v.slots_all)
