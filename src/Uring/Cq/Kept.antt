-- ===== src/Uring/Cq/Kept.antt =====
-- `WaitCQE` keeps the completion queue valid while the kernel posts to it.
use ublk_go.Prelude.{
  refl, true, ◌==◌, inl, inr, Option-cases, if◌then◌else◌, ℕ, ◌+◌, ◌^◌, ◌≤◌, ◌≡◌, sym, ◌∙◌, ap,
  Bool, List, [], ◌∷◌, ◌++◌, Option, none, some, arith, length, length-append, if_both,
}
use ublk_go.Uring.Entry.{Cqe}
use ublk_go.Uring.Cq.{
  Cq, Wake, Epoll, interrupted, failed, ready, WaitResult, cancel, elapse, post_all, wait_cqe,
  has_cancel, err_cancelled, err_epoll,
}
use ublk_go.Uring.Cq.Queue.{IsValid, waiting, completions, waiting-length, post_all-append}

-- What the kernel posts in the given passes of the loop.
abbrev pub posted_in : List Wake → List Cqe
posted_in [] = []
posted_in (w ∷ ws) = w.posted ++ posted_in ws

-- Only the fields of `Cancel` differ.
flags-IsValid :
    (k : ℕ) (r : Cq) (c : Option ℕ) (flag : Bool) (n : ℕ)
    → IsValid k r
    → IsValid k (record r { cancel_fd = c; cancelled = flag; signals = n })
flags-IsValid k r c flag n v = record {
  small = v.small;
  mask_pow = v.mask_pow;
  cqes_all = v.cqes_all;
  head_word = v.head_word;
  tail_word = v.tail_word;
  fits = v.fits;
}

cancel-IsValid :
    (k : ℕ) (r : Cq) → IsValid k r → IsValid k (cancel r) × (waiting (cancel r) ≡ waiting r)
unfolding cancel
cancel-IsValid k r v = elim (Option-cases r.cancel_fd) [
  | inl absent ↦ rw absent (flags-IsValid k r none true r.signals v, refl)
  | inr (fd, given) ↦ rw given (flags-IsValid k r (some fd) true (r.signals + 1) v, refl)
]

posted_waiting :
    (k : ℕ) (r : Cq) (cs : List Cqe)
    → IsValid k r
    → waiting r + length cs ≤ 2 ^ k
    → IsValid k (post_all cs r) × (waiting (post_all cs r) ≡ waiting r + length cs)
posted_waiting k r cs v room =
    let (valid, queue) = post_all-append k r cs v room in
    (
      valid,
      sym (waiting-length k (post_all cs r))
          ∙ ap length queue
          ∙ length-append (completions k r) cs
          ∙ ap (λ (n : ℕ). n + length cs) (waiting-length k r),
    )

elapse-IsValid :
    (k : ℕ) (w : Wake) (r : Cq)
    → IsValid k r
    → waiting r + length w.posted ≤ 2 ^ k
    → IsValid k (elapse w r) × (waiting (elapse w r) ≡ waiting r + length w.posted)
unfolding elapse
elapse-IsValid k w r v room =
    let (valid, grown) = posted_waiting k r w.posted v room in
    let (flagged, same) = cancel-IsValid k (post_all w.posted r) valid in
    if_both (λ (q : Cq). IsValid k q × (waiting q ≡ waiting r + length w.posted)) w.cancels _ _
      (flagged, same ∙ grown) (valid, grown)

-- With room for what the kernel posts meanwhile, WaitCQE leaves a valid queue.
pub wait_cqe-IsValid :
    (k : ℕ) (ws : List Wake) (r : Cq)
    → IsValid k r
    → waiting r + length (posted_in ws) ≤ 2 ^ k
    → IsValid k (wait_cqe ws r).1
unfolding wait_cqe
wait_cqe-IsValid k [] r v room = v
wait_cqe-IsValid k (w ∷ ws) r v room =
    let total = length-append w.posted (posted_in ws) in
    let (later, grown) = elapse-IsValid k w r v (omega (arith, room, total)) in
    let again = wait_cqe-IsValid k ws (elapse w r) later (omega (arith, room, total, grown)) in
    let good : WaitResult × Cq → Type 0 = λ out. IsValid k out.1 in
    if_both good r.cancelled _ _ v
      (if_both good (r.head == r.tail) _ _ (by_return w.returns again later) v)
  where
    by_return :
        (x : Epoll)
        → IsValid k (wait_cqe ws (elapse w r)).1
        → IsValid k (elapse w r)
        → IsValid k
            (elim x as (λ _. WaitResult × Cq) [
              | interrupted ↦ wait_cqe ws (elapse w r)
              | failed e ↦ (err_epoll e, elapse w r)
              | ready fds ↦
                  if has_cancel r.cancel_fd fds
                  then (err_cancelled, elapse w r)
                  else wait_cqe ws (elapse w r)
            ]).1
    by_return interrupted a l = a
    by_return (failed e) a l = l
    by_return (ready fds) a l =
        if_both (λ (out : WaitResult × Cq). IsValid k out.1) (has_cancel r.cancel_fd fds) _ _ l a
