-- ===== src/Uring/Sq/Quiet.antt =====
-- A submission queue with nothing pending and nothing unread, as it is once the kernel has taken all
-- that was submitted.
use ublk_go.Prelude.{
  ℕ, ◌^◌, ◌≡◌, sym, ap, subst, ◌∙◌, List, ◌++◌, map, arith, length, length-append,
}
use ublk_go.Uring.Entry.{Sqe}
use ublk_go.Uring.Window.{window_empty}
use ublk_go.Uring.Sq.{Sq, flush_sq, consume}
use ublk_go.Uring.Sq.Valid.{
  IsValid, pending, unread, pending_sqes, queued_sqes, pending-length, queued-length,
}
use ublk_go.Uring.Sq.Flush.{Published, flush_sq-Published}

-- Nothing pending and nothing unread: the ring between two passes.
abbrev pub IsQuiet : Sq → Type 0
IsQuiet r = (pending r ≡ 0) × (unread r ≡ 0)

-- When the kernel has read all that was published.
consume-IsValid :
    (k : ℕ) (r : Sq)
    → IsValid k r
    → IsValid k (consume (unread r) r) × (unread (consume (unread r) r) ≡ 0)
consume-IsValid k r v =
    let none_left : unread (consume (unread r) r) ≡ 0 = omega (arith, v.head_word, v.tail_word) in
    (
      record {
        small = v.small;
        entries_pow = v.entries_pow;
        mask_pow = v.mask_pow;
        slots_all = v.slots_all;
        array_all = v.array_all;
        flushed = v.flushed;
        head_word = omega arith;
        tail_word = v.tail_word;
        local_word = v.local_word;
        pending_fits = v.pending_fits;
        unread_fits = omega (arith, none_left);
        named = λ j lt. absurd (omega (arith, none_left, lt));
      },
      none_left,
    )

module _ (k : ℕ) (r : Sq) (v : IsValid k r) (read : unread r ≡ 0) where
  pub published : Published k r (flush_sq r)
  published = flush_sq-Published k r v (omega (arith, v.pending_fits))

  pub flushed_unread : unread (flush_sq r).1 ≡ (flush_sq r).0
  flushed_unread =
      let p = published in
      omega (
        arith,
        queued-length k (flush_sq r).1,
        ap length p.queue,
        queued-length k r,
        p.count,
        length-append (queued_sqes k r) (pending_sqes k r),
      )

  flushed_pending : pending (flush_sq r).1 ≡ 0
  flushed_pending = sym (pending-length k (flush_sq r).1) ∙ ap length published.none_left

  -- What the kernel reads is what was pending.
  pub flushed_queue : queued_sqes k (flush_sq r).1 ≡ pending_sqes k r
  flushed_queue =
      published.queue
      ∙ ap (λ (t : List Sqe). t ++ pending_sqes k r)
          (ap (map _) (window_empty 0 (2 ^ k) r.array r.head (unread r) read))

  pub all_taken :
      IsValid k (consume (flush_sq r).0 (flush_sq r).1)
      × IsQuiet (consume (flush_sq r).0 (flush_sq r).1)
  all_taken =
      let (valid, none_left) =
        subst
          (λ (n : ℕ).
            IsValid k (consume n (flush_sq r).1) × (unread (consume n (flush_sq r).1) ≡ 0))
          flushed_unread (consume-IsValid k (flush_sq r).1 published.valid) in
      (valid, (flushed_pending, none_left))

  pub idle_taken : (flush_sq r).0 ≡ 0 → IsValid k (flush_sq r).1 × IsQuiet (flush_sq r).1
  idle_taken idle = (published.valid, (flushed_pending, flushed_unread ∙ idle))
