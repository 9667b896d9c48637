-- ===== src/Uring/Ring/Granted.antt =====
-- On a kernel that grants every call a ring is set up, and what is submitted is taken.
use ublk_go.Prelude.{
  ap, ap₂, List, [], ◌++◌, length, none_of_length, ℕ, ◌^◌, ◌≤◌, ◌≡◌, ◌≢◌, ◌∙◌, false, refl, ◌∷◌,
  some, arith, ◌==◌,
}
use ublk_go.Go.Words.{sub_u32}
use ublk_go.Uring.Entry.{Sqe}
use ublk_go.Uring.Sq.{Sq, flush_sq}
use ublk_go.Uring.Sq.Valid.{IsValid, unread, pending_sqes, queued_sqes, queued-length}
use ublk_go.Uring.Sq.Quiet.{IsQuiet, all_taken, published}
use ublk_go.Uring.Ring.{
  Ring, on_fd, mmap_ring, point_queue, mmap_rings, epoll_add_to, setup_cancel, close_on_error,
  open_ring, setup, enter_ring, submit, taken,
}
use ublk_go.System.{fine, entered, Log, ◌>>=◌, ◌>>◌, then_do, give, change, look, keep, call}
use ublk_go.System.Granted.{Answers, granting, IsUnused, HasRings}

-- A ring of 2 ^ k entries that is open, with nothing in its submission queue.
pub record IsIdle (k : ℕ) (g : Ring) : Type 0 where
  pub fd : ℕ
  pub open_fd : g.fd ≡ some fd
  pub valid : IsValid k g.sq
  pub quiet : IsQuiet g.sq

not_zero : (n : ℕ) → n ≢ 0 → (n == 0) ≡ false
not_zero n busy = ground arith

-- The queue of a new ring, once mmapRings has pointed to it.
unused-IsValid :
    (k n : ℕ) (r : Sq)
    → k ≤ 30
    → IsUnused k r
    → n ≡ 2 ^ k
    → IsValid k (record r { local_head = 0; local_tail = 0; entries = n })
      × IsQuiet (record r { local_head = 0; local_tail = 0; entries = n })
unused-IsValid k n r small u sized =
    let none_unread : sub_u32 r.tail r.head ≡ 0 = omega (arith, u.head_start, u.tail_start) in
    (
      record {
        small = small;
        entries_pow = sized;
        mask_pow = u.mask_pow;
        slots_all = u.slots_all;
        array_all = u.array_all;
        flushed = u.tail_start;
        head_word = omega (arith, u.head_start);
        tail_word = omega (arith, u.tail_start);
        local_word = omega arith;
        pending_fits = omega arith;
        unread_fits = omega (arith, none_unread);
        named = λ j lt. absurd (omega (arith, none_unread, lt));
      },
      (omega arith, none_unread),
    )

module _ (a : Answers) where
  pub setup-granted :
      (k : ℕ) (entries flags size : ℕ) (l : Log)
      → HasRings a
      → k ≤ 30
      → entries ≡ 2 ^ k
      → (g : Ring) × (l' : Log) × (setup (granting a) entries flags size l ≡ (fine g, l'))
        × IsIdle k g
  unfolding setup open_ring close_on_error mmap_rings mmap_ring point_queue epoll_add_to
      setup_cancel on_fd ◌>>=◌ ◌>>◌ then_do look keep call
  setup-granted k entries flags size l has small pow =
      let (valid, quiet) =
        unused-IsValid k _ _ small (has.unused _ k small pow) (has.sized _ k small pow) in
      (
        _,
        _,
        refl,
        record { fd = a.ring_fd l entries flags; open_fd = refl; valid = valid; quiet = quiet },
      )

  -- One pending entry: the kernel reads exactly that one.
  pub submit_one-granted :
      (k : ℕ) (e : Sqe) (g : Ring) (l : Log) (fd : ℕ)
      → g.fd ≡ some fd
      → IsValid k g.sq
      → unread g.sq ≡ 0
      → pending_sqes k g.sq ≡ e ∷ []
      → let g' = taken (flush_sq g.sq).0 (record g { sq = (flush_sq g.sq).1 }) in
        (submit (granting a) g l ≡ (fine 1, g', entered fd 1 0 (fine 1) ∷ l))
        × IsIdle k g'
        × (queued_sqes k (flush_sq g.sq).1 ≡ e ∷ [])
  unfolding submit enter_ring on_fd ◌>>=◌ ◌>>◌ then_do look keep call give change
  submit_one-granted k e g l fd open_fd valid read alone =
      let p = published k g.sq valid read in
      let one : (flush_sq g.sq).0 ≡ 1 = p.count ∙ ap length alone in
      let (valid', quiet) = all_taken k g.sq valid read in
      let none_read = none_of_length (queued_sqes k g.sq) (queued-length k g.sq ∙ read) in
      (
        rw (one, open_fd) refl,
        record { fd = fd; open_fd = open_fd; valid = valid'; quiet = quiet },
        p.queue ∙ ap₂ (λ (x y : List Sqe). x ++ y) none_read alone,
      )
