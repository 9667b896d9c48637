-- ===== src/Uring/Sq/Reading.antt =====
-- The kernel's side of the submission queue: what it will read is not touched by the slots that are
-- handed out, and it takes the oldest entry.
use ublk_go.Prelude.{
  ℕ, suc, ◌+◌, ◌-◌, ◌%◌, ◌^◌, ◌≤◌, ◌<◌, ◌≡◌, ◌≢◌, refl, sym, ap, ap₂, ◌∙◌, ◌∷◌, arith, get_or, set,
  bit_and, map,
}
use ublk_go.Go.Words.{u32}
use ublk_go.Go.Bits.Mask.{u32-mod-pow, bit_and-mask}
use ublk_go.Uring.Entry.{Sqe, zero_sqe}
use ublk_go.Uring.Window.{window, window_step, window-set_out, window_of_mod, index_ne}
use ublk_go.Uring.Sq.{Sq, write_sqe, front_sqe, take_sqe}
use ublk_go.Uring.Sq.Valid.{IsValid, pending, unread, pending_sqes, queued_sqes}
use ublk_go.Uring.Sq.Refine.{advanced, advanced-IsValid, write_sqe-IsValid, pow_small}
use ublk_go.Uring.Sq.Flush.{queued-eq-window}

-- The next slot lies behind the unread and the pending entries.
next_behind :
    {k : ℕ} {r : Sq}
    → IsValid k r
    → r.local_tail % 2 ^ k ≡ (r.head + (unread r + pending r)) % 2 ^ k
next_behind {k} {r} v =
    ap (λ (t : ℕ). t % 2 ^ k) (wrapped v)
    ∙ u32-mod-pow k (r.head + (unread r + pending r)) (omega (arith, v.small))
  where
    wrapped : {j : ℕ} → IsValid j r → r.local_tail ≡ u32 (r.head + (unread r + pending r))
    wrapped w = omega (arith, w.flushed, w.head_word, w.tail_word, w.local_word)

-- While unread and pending entries leave a slot free, filling the next one changes nothing that the
-- kernel will read.
pub fill_keeps :
    {k : ℕ} {r : Sq} (e d : Sqe)
    → IsValid k r
    → unread r + pending r < 2 ^ k
    → queued_sqes k
        (write_sqe (r.local_tail % 2 ^ k) e (write_sqe (r.local_tail % 2 ^ k) d (advanced r)))
      ≡ queued_sqes k r
fill_keeps {k} {r} e d v room =
    queued-eq-window
      (write_sqe-IsValid i e (write_sqe-IsValid i d (advanced-IsValid v (omega arith))))
    ∙ window-set_out (zero_sqe 0) (2 ^ k) (set r.slots i d) r.head (unread r) i e apart
    ∙ window-set_out (zero_sqe 0) (2 ^ k) r.slots r.head (unread r) i d apart
    ∙ sym (queued-eq-window v)
  where
    i : ℕ
    i = r.local_tail % 2 ^ k

    apart : (j : ℕ) → j < unread r → i ≢ (r.head + j) % 2 ^ k
    apart j lt same =
        index_ne (2 ^ k) r.head j (unread r + pending r) (omega arith) (omega arith)
          (sym same ∙ next_behind v)

take_word : {k : ℕ} {r : Sq} → IsValid k r → unread r ≢ 0 → unread (take_sqe r) ≡ unread r - 1
unfolding take_sqe
take_word v some_unread = omega (arith, pow_small v)

next_word : (k h j : ℕ) → k ≤ 30 → (u32 (h + 1) + j) % 2 ^ k ≡ (h + suc j) % 2 ^ k
next_word k h j small =
    let word : u32 (u32 (h + 1) + j) ≡ u32 (h + suc j) = omega arith in
    sym (u32-mod-pow k (u32 (h + 1) + j) (omega arith))
    ∙ ap (λ (a : ℕ). a % 2 ^ k) word
    ∙ u32-mod-pow k (h + suc j) (omega arith)

take_sqe-IsValid : (k : ℕ) (r : Sq) → IsValid k r → unread r ≢ 0 → IsValid k (take_sqe r)
unfolding take_sqe
take_sqe-IsValid k r v some_unread = record {
  small = v.small;
  entries_pow = v.entries_pow;
  mask_pow = v.mask_pow;
  slots_all = v.slots_all;
  array_all = v.array_all;
  flushed = v.flushed;
  head_word = omega arith;
  tail_word = v.tail_word;
  local_word = v.local_word;
  pending_fits = v.pending_fits;
  unread_fits = omega (arith, take_word v some_unread, v.unread_fits);
  named = λ j lt.
      rw (next_word k r.head j v.small)
        (v.named (suc j) (omega (arith, lt, take_word v some_unread)));
}

-- The kernel takes the oldest entry; the pending ones stay.
pub take_sqe-front :
    (k : ℕ) (r : Sq)
    → IsValid k r
    → unread r ≢ 0
    → IsValid k (take_sqe r) × (queued_sqes k r ≡ front_sqe r ∷ queued_sqes k (take_sqe r))
unfolding take_sqe front_sqe
take_sqe-front k r v some_unread = (
  take_sqe-IsValid k r v some_unread,
  ap (map entry) (window_step 0 (2 ^ k) r.array r.head (unread r) some_unread)
      ∙ ap₂ ◌∷◌ (ap (λ (i : ℕ). entry (get_or r.array i 0)) (sym masked)) (ap (map entry) moved),
)
  where
    entry : ℕ → Sqe
    entry i = get_or r.slots i (zero_sqe 0)

    masked : bit_and r.head r.mask ≡ r.head % 2 ^ k
    masked = ap (bit_and r.head) v.mask_pow ∙ bit_and-mask k r.head

    moved :
        window 0 (2 ^ k) r.array (r.head + 1) (unread r - 1)
        ≡ window 0 (2 ^ k) r.array (u32 (r.head + 1)) (unread (take_sqe r))
    moved =
        window_of_mod 0 (2 ^ k) r.array (unread r - 1) (r.head + 1) (u32 (r.head + 1))
          (sym (u32-mod-pow k (r.head + 1) (omega (arith, v.small))))
        ∙ ap (window 0 (2 ^ k) r.array (u32 (r.head + 1))) (sym (take_word v some_unread))

pub take_sqe-pending : (k : ℕ) (r : Sq) → pending_sqes k (take_sqe r) ≡ pending_sqes k r
unfolding take_sqe
take_sqe-pending k r = refl
