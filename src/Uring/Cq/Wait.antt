-- ===== src/Uring/Cq/Wait.antt =====
-- `WaitCQE`: what it returns, and that a cancelled ring never keeps it waiting.
use ublk_go.Prelude.{◌≡◌, ◌≢◌, true, false, List, [], ◌∷◌, some, arith, ◌⊎◌, inl, inr}
use ublk_go.Uring.Entry.{Cqe}
use ublk_go.Uring.Cq.{
  Cq, Wake, completion, err_cancelled, blocked, cancel, elapse, wait_cqe, peek_cqe,
}

-- `Cancel` before the call wins over completions that wait, whatever happens later.
pub wait_cqe-cancel : (ws : List Wake) (r : Cq) → wait_cqe ws (cancel r) ≡ (err_cancelled, cancel r)
unfolding wait_cqe cancel
wait_cqe-cancel [] r = ground arith
wait_cqe-cancel (w ∷ ws) r = ground arith

-- A completion is returned only while the ring is not cancelled, and it is the one that `PeekCQE`
-- then returns: it stays in the queue.
pub wait_cqe_completion :
    (ws : List Wake) (r : Cq) (c : Cqe)
    → (wait_cqe ws r).0 ≡ completion c
    → ((wait_cqe ws r).1.cancelled ≡ false) × (peek_cqe (wait_cqe ws r).1 ≡ some c)
unfolding wait_cqe peek_cqe
wait_cqe_completion [] r c e = ground arith
wait_cqe_completion (w ∷ ws) r c e = ground (arith, wait_cqe_completion ws (elapse w r) c)

abbrev pub AnyCancels : List Wake → Type 0
AnyCancels [] = ⊥
AnyCancels (w ∷ ws) = (w.cancels ≡ true) ⊎ AnyCancels ws

pub wait_cqe_cancelled :
    (ws : List Wake) (r : Cq) → r.cancelled ≡ true → wait_cqe ws r ≡ (err_cancelled, r)
unfolding wait_cqe
wait_cqe_cancelled [] r e = ground arith
wait_cqe_cancelled (w ∷ ws) r e = ground arith

elapse_cancels : (w : Wake) (r : Cq) → w.cancels ≡ true → (elapse w r).cancelled ≡ true
unfolding elapse cancel
elapse_cancels w r e = ground arith

-- If another goroutine cancels the ring in any pass of the loop, the call returns: it does not wait
-- on, even if `epoll_wait` was interrupted or reported other descriptors in that pass.
pub wait_cqe-ne-blocked : (ws : List Wake) (r : Cq) → AnyCancels ws → (wait_cqe ws r).0 ≢ blocked
unfolding wait_cqe
wait_cqe-ne-blocked [] r a = absurd a
wait_cqe-ne-blocked (w ∷ ws) r (inl now) =
    ground (arith, wait_cqe_cancelled ws (elapse w r) (elapse_cancels w r now))
wait_cqe-ne-blocked (w ∷ ws) r (inr later) =
    ground (arith, wait_cqe-ne-blocked ws (elapse w r) later)
