-- ===== src/Uring/Cq/Arrival.antt =====
-- `WaitCQE` on an empty queue, when the kernel then posts.
use ublk_go.Prelude.{
  ℕ, ◌^◌, ◌≤◌, ◌<◌, ◌≡◌, ◌==◌, refl, sym, ◌∙◌, ap, true, false, List, [], ◌∷◌, ◌++◌, Option, arith,
  length, subst, if◌then◌else◌, ◌⊎◌, inl, inr,
}
use ublk_go.Uring.Entry.{Cqe, zero_cqe}
use ublk_go.Uring.Cq.{
  Cq, Wake, WaitResult, interrupted, ready, completion, front, seen_cqe, elapse, post_all, wait_cqe,
  has_cancel,
}
use ublk_go.Uring.Window.{window_empty}
use ublk_go.Uring.Cq.Queue.{IsValid, waiting, completions, post_all-append, waiting-length}

-- What `Cancel` changes is the same.
abbrev pub SameFlags : Cq → Cq → Type 0
SameFlags r r' = (r'.cancelled ≡ r.cancelled) × (r'.cancel_fd ≡ r.cancel_fd)

pub post_all-SameFlags : (cs : List Cqe) (r : Cq) → SameFlags r (post_all cs r)
unfolding post_all
post_all-SameFlags [] r = (refl, refl)
post_all-SameFlags (c ∷ cs) r = post_all-SameFlags cs _

pub seen-SameFlags : (r : Cq) → SameFlags r (seen_cqe r)
unfolding seen_cqe
seen-SameFlags r = (refl, refl)

-- No other goroutine cancels the ring, and epoll_wait returns without an error that ends the call.
pub record IsCalm (cancel_fd : Option ℕ) (w : Wake) : Type 0 where
  pub uncancelled : w.cancels ≡ false
  pub returned :
      (w.returns ≡ interrupted)
      ⊎ ((fds : List ℕ) × (w.returns ≡ ready fds) × (has_cancel cancel_fd fds ≡ false))

-- In some pass the kernel posts, and up to that pass nothing else ends the call.
abbrev pub Arrives : Option ℕ → List Wake → Type 0
Arrives cancel_fd [] = ⊥
Arrives cancel_fd (w ∷ ws) =
    IsCalm cancel_fd w × ((0 < length w.posted) ⊎ ((w.posted ≡ []) × Arrives cancel_fd ws))

-- What is posted in that pass.
abbrev pub arrived : List Wake → List Cqe
arrived [] = []
arrived (w ∷ ws) = if length w.posted == 0 then arrived ws else w.posted

-- The call returns a completion, with all that were posted waiting.
pub record Arrived (k : ℕ) (ws : List Wake) (r : Cq) : Type 0 where
  pub first : Cqe
  pub returns : (wait_cqe ws r).0 ≡ completion first
  pub all_wait : completions k (wait_cqe ws r).1 ≡ arrived ws
  pub flags : SameFlags r (wait_cqe ws r).1

wait_busy :
    (ws : List Wake) (r : Cq)
    → r.cancelled ≡ false
    → (r.head == r.tail) ≡ false
    → wait_cqe ws r ≡ (completion (front r), r)
unfolding wait_cqe front
wait_busy [] r live busy = rw (live, busy) refl
wait_busy (w ∷ ws) r live busy = rw (live, busy) refl

wait_calm :
    (w : Wake) (ws : List Wake) (r : Cq)
    → IsCalm r.cancel_fd w
    → r.cancelled ≡ false
    → (r.head == r.tail) ≡ true
    → wait_cqe (w ∷ ws) r ≡ wait_cqe ws (post_all w.posted r)
unfolding wait_cqe elapse
wait_calm w ws r calm live idle = elim calm.returned [
  | inl e ↦ simp (live, idle, e, calm.uncancelled)
  | inr (fds, e, other) ↦ simp (live, idle, e, other, calm.uncancelled)
]

idle_words : (k : ℕ) (r : Cq) → IsValid k r → waiting r ≡ 0 → (r.head == r.tail) ≡ true
idle_words k r v none = ground (arith, v.head_word, v.tail_word, none)

busy_words : (k : ℕ) (r : Cq) → IsValid k r → 0 < waiting r → (r.head == r.tail) ≡ false
busy_words k r v some = ground (arith, v.head_word, v.tail_word, some)

posted_arrives :
    (k : ℕ) (ws : List Wake) (r : Cq) (cs : List Cqe)
    → IsValid k r
    → waiting r ≡ 0
    → r.cancelled ≡ false
    → 0 < length cs
    → length cs ≤ 2 ^ k
    → (wait_cqe ws (post_all cs r) ≡ (completion (front (post_all cs r)), post_all cs r))
      × (completions k (post_all cs r) ≡ cs)
posted_arrives k ws r cs v none live some room =
    let (valid, queue) = post_all-append k r cs v (omega arith) in
    let flags = post_all-SameFlags cs r in
    let whole : completions k (post_all cs r) ≡ cs =
      queue
      ∙ ap (λ (t : List Cqe). t ++ cs)
          (window_empty zero_cqe (2 ^ k) r.cqes r.head (waiting r) none) in
    (
      wait_busy ws (post_all cs r) (flags.0 ∙ live) (
          busy_words k (post_all cs r) valid
            (omega (arith, waiting-length k (post_all cs r), ap length whole, some))),
      whole,
    )

pub wait_cqe-Arrived :
    (k : ℕ) (ws : List Wake) (r : Cq)
    → IsValid k r
    → waiting r ≡ 0
    → r.cancelled ≡ false
    → Arrives r.cancel_fd ws
    → length (arrived ws) ≤ 2 ^ k
    → Arrived k ws r
unfolding post_all
wait_cqe-Arrived k [] r v none live a room = absurd a
wait_cqe-Arrived k (w ∷ ws) r v none live (calm, inl some) room =
    let here : arrived (w ∷ ws) ≡ w.posted = ground arith in
    let (waits, whole) =
      posted_arrives k ws r w.posted v none live some (omega (arith, ap length here, room)) in
    let out = wait_calm w ws r calm live (idle_words k r v none) ∙ waits in
    record {
      first = front (post_all w.posted r);
      returns = ap (λ (x : WaitResult × Cq). x.0) out;
      all_wait = ap (λ (x : WaitResult × Cq). completions k x.1) out ∙ whole ∙ sym here;
      flags =
          subst (λ (x : WaitResult × Cq). SameFlags r x.1) (sym out)
            (post_all-SameFlags w.posted r);
    }
wait_cqe-Arrived k (w ∷ ws) r v none live (calm, inr (empty, later)) room =
    let after : arrived (w ∷ ws) ≡ arrived ws = rw empty refl in
    let rest = wait_cqe-Arrived k ws r v none live later (omega (arith, ap length after, room)) in
    let out =
      wait_calm w ws r calm live (idle_words k r v none)
      ∙ ap (λ (cs : List Cqe). wait_cqe ws (post_all cs r)) empty in
    record {
      first = rest.first;
      returns = ap (λ (x : WaitResult × Cq). x.0) out ∙ rest.returns;
      all_wait = ap (λ (x : WaitResult × Cq). completions k x.1) out ∙ rest.all_wait ∙ sym after;
      flags = subst (λ (x : WaitResult × Cq). SameFlags r x.1) (sym out) rest.flags;
    }

pub SameFlags-trans : (r r1 r2 : Cq) → SameFlags r r1 → SameFlags r1 r2 → SameFlags r r2
SameFlags-trans r r1 r2 (a, b) (c, d) = (c ∙ a, d ∙ b)

-- A completion is seen, and others are posted.
pub posted-SameFlags : (cs : List Cqe) (r q : Cq) → q ≡ seen_cqe r → SameFlags r (post_all cs q)
posted-SameFlags cs r q e =
    subst (λ (x : Cq). SameFlags r (post_all cs x)) (sym e)
      (SameFlags-trans r (seen_cqe r) (post_all cs (seen_cqe r)) (seen-SameFlags r)
        (post_all-SameFlags cs (seen_cqe r)))
