-- ===== src/Uring/Sq/Slots.antt =====
-- The slot that `GetSQE64` and `GetSQE128` hand out, and when they hand out none.
use native.Mathlib.Nat.{mod-lt, add-zero, add-mod_right}
use ublk_go.Prelude.{
  ℕ, ◌+◌, ◌%◌, ◌^◌, ◌<◌, ◌≡◌, ◌↔◌, refl, ap, subst, ◌∙◌, sym, [], ◌∷◌, ◌++◌, Option, none, some,
  arith, get_or, get_or-set_self, dec_lt,
}
use ublk_go.Go.Words.{u32}
use ublk_go.Go.Bits.Mask.{u32-mod-pow}
use ublk_go.Go.Bits.Laws.{pow-two-pos}
use ublk_go.Uring.Entry.{Sqe, zero_sqe, sqe64_cmd, sqe128_cmd}
use ublk_go.Uring.Sq.{Sq, next_sqe, zero_slot, write_sqe, get_sqe64, get_sqe128}
use ublk_go.Uring.Sq.Valid.{IsValid, pending, unread, pending_sqes, queued_sqes}
use ublk_go.Uring.Sq.Refine.{
  next_sqe-free, next_sqe-full, advanced-IsValid, write_sqe-IsValid, fill_appends,
}
use ublk_go.Uring.Sq.Reading.{fill_keeps}

-- A slot handed out zeroed: what it is, and what filling it does to the queue.
pub record Handed (k bytes : ℕ) (r : Sq) (out : Option ℕ × Sq) : Type 0 where
  pub slot : ℕ
  pub given : out.0 ≡ some slot
  pub unmoved : (out.1.head ≡ r.head) × (out.1.tail ≡ r.tail)
  pub within : slot < 2 ^ k
  pub zeroed : get_or out.1.slots slot (zero_sqe 0) ≡ zero_sqe bytes
  pub valid : (e : Sqe) → IsValid k (write_sqe slot e out.1)
  pub appended : (e : Sqe) → pending_sqes k (write_sqe slot e out.1) ≡ pending_sqes k r ++ e ∷ []
  pub kept :
      unread r + pending r < 2 ^ k
      → (e : Sqe) → queued_sqes k (write_sqe slot e out.1) ≡ queued_sqes k r

zero_slot-Handed :
    (k bytes : ℕ) (r : Sq)
    → IsValid k r
    → pending r < 2 ^ k
    → Handed k bytes r (zero_slot bytes (next_sqe r))
unfolding zero_slot
zero_slot-Handed k bytes r v h = rw (next_sqe-free v h) (record {
  slot = r.local_tail % 2 ^ k;
  given = refl;
  unmoved = (refl, refl);
  within = mod-lt r.local_tail (pow-two-pos k);
  zeroed =
      get_or-set_self r.slots (r.local_tail % 2 ^ k) (zero_sqe bytes) (zero_sqe 0)
        (rw v.slots_all (mod-lt r.local_tail (pow-two-pos k)));
  valid = λ e.
      write_sqe-IsValid (r.local_tail % 2 ^ k) e
        (write_sqe-IsValid (r.local_tail % 2 ^ k) (zero_sqe bytes) (advanced-IsValid v h));
  appended = λ e. fill_appends e (zero_sqe bytes) v h;
  kept = λ room e. fill_keeps e (zero_sqe bytes) v room;
})

-- While fewer than all entries are pending, `GetSQE64` hands out a zeroed slot of the ring, and
-- whatever is then written there is appended to the pending entries, of which none changes. If the
-- unread entries leave a slot free beside the pending ones, those do not change either.
pub get_sqe64-Handed :
    (k : ℕ) (r : Sq) → IsValid k r → pending r < 2 ^ k → Handed k sqe64_cmd r (get_sqe64 r)
unfolding get_sqe64
get_sqe64-Handed k r v h = zero_slot-Handed k sqe64_cmd r v h

-- The same for `GetSQE128`.
pub get_sqe128-Handed :
    (k : ℕ) (r : Sq) → IsValid k r → pending r < 2 ^ k → Handed k sqe128_cmd r (get_sqe128 r)
unfolding get_sqe128
get_sqe128-Handed k r v h = zero_slot-Handed k sqe128_cmd r v h

pub get_sqe64-full :
    (k : ℕ) (r : Sq)
    → IsValid k r
    → pending r ≡ 2 ^ k
    → get_sqe64 r ≡ (none, record r { local_head = r.head })
unfolding get_sqe64 zero_slot
get_sqe64-full k r v full = rw (next_sqe-full v full)

-- `GetSQE64` returns nil exactly when all entries are pending: loading the kernel's head never
-- makes room, since it is never past the entries that are already published.
pub get_sqe64-none : (k : ℕ) (r : Sq) → IsValid k r → ((get_sqe64 r).0 ≡ none) ↔ (pending r ≡ 2 ^ k)
get_sqe64-none k r v = (only_full, λ full. rw (get_sqe64-full k r v full))
  where
    only_full : (get_sqe64 r).0 ≡ none → pending r ≡ 2 ^ k
    only_full e = elim (dec_lt (pending r) (2 ^ k)) [
      | yes free ↦ cc (get_sqe64-Handed k r v free).given
      | no full ↦ omega (arith, v.pending_fits)
    ]

-- The code does not count the entries that the kernel has left unread. If those and the pending
-- ones fill the ring, and not all are pending, `nextSQE` still succeeds, and the slot is that of the
-- oldest unread entry, which the caller then overwrites.
pub next_sqe_overruns :
    (k : ℕ) (r : Sq)
    → IsValid k r
    → 0 < unread r
    → unread r + pending r ≡ 2 ^ k
    → (next_sqe r).0 ≡ some (get_or r.array (r.head % 2 ^ k) 0)
next_sqe_overruns k r v some_unread full =
    rw (next_sqe-free v (omega arith)) (ap some (index ∙ sym oldest))
  where
    wraps : r.local_tail ≡ u32 (r.head + 2 ^ k)
    wraps = omega (arith, v.flushed, v.tail_word, v.head_word, v.local_word)

    index : r.local_tail % 2 ^ k ≡ r.head % 2 ^ k
    index =
        ap (λ (t : ℕ). t % 2 ^ k) wraps
        ∙ u32-mod-pow k (r.head + 2 ^ k) (omega (arith, v.small))
        ∙ add-mod_right r.head (2 ^ k)

    oldest : get_or r.array (r.head % 2 ^ k) 0 ≡ r.head % 2 ^ k
    oldest =
        subst (λ (h : ℕ). get_or r.array (h % 2 ^ k) 0 ≡ h % 2 ^ k) (add-zero r.head)
          (v.named 0 some_unread)
