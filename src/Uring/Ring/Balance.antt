-- ===== src/Uring/Ring/Balance.antt =====
-- Setting a ring up keeps the balance of descriptors and mappings, on every error path.
use ublk_go.Prelude.{ℕ, ◌+◌, ◌≡◌, refl, ◌∷◌, Option, none, some, arith, if_both}
use ublk_go.Uring.Round.{round_up2}
use ublk_go.System.{
  Ret, fine, fail, Event, ring_made, event_made, epoll_made, mapped, Log, Kernel, Act, call, keep,
}
use ublk_go.System.Kept.{
  Res, descriptor, mapping, hit, hit_fd, gains, losses, Kept, Keeps, seq-Keeps, give-Keeps,
  refuse-Keeps, change-Keeps, look-Keeps, call-Keeps,
}
use ublk_go.Uring.Ring.{
  Ring, ebadf, on_fd, mmap_ring, point_queue, mmap_rings, epoll_add_to, setup_cancel,
  close_on_error, open_ring, setup, new_sqe128, new_ring, enter_ring, submit, submit_and_wait,
  enter_getevents, sqe64_size, sqe128_size, setup_sqe128,
}
use ublk_go.Uring.Ring.Closing.{own_ring, close_ring-Kept}

abbrev pub AnyRing : Ring → Type 0
AnyRing g = Unit

abbrev Keeping : {A : Type 0} → (Ring → Type 0) → Act Ring A → (Ring → Type 0) → Type 0
Keeping P m Q = Keeps own_ring AnyRing P m Q

-- What is still to be set up.
abbrev NoCancel : Ring → Type 0
NoCancel g = (g.cancel_fd ≡ none) × (g.epoll_fd ≡ none)

abbrev NoEpoll : Ring → Type 0
NoEpoll g = g.epoll_fd ≡ none

abbrev Bare : Ring → Type 0
Bare g = (g.map_sq ≡ none) × (g.map_cq ≡ none) × (g.map_sqes ≡ none) × NoCancel g

abbrev OneMapped : Ring → Type 0
OneMapped g = (g.map_cq ≡ none) × (g.map_sqes ≡ none) × NoCancel g

abbrev TwoMapped : Ring → Type 0
TwoMapped g = (g.map_sqes ≡ none) × NoCancel g

on_fd-Keeps :
    {A : Type 0} {P Q : Ring → Type 0} (fd : Option ℕ) {f : ℕ → Act Ring A}
    → ((n : ℕ) → Keeping P (f n) Q)
    → Keeping P (on_fd fd f) Q
unfolding on_fd
on_fd-Keeps {A = A} none kf = refuse-Keeps own_ring AnyRing A ebadf (λ g p. tt)
on_fd-Keeps (some fd) kf = kf fd

mmap_ring-Keeps :
    {P Q : Ring → Type 0} (off len : ℕ) (put : ℕ → Ring → Ring)
    → ((r : Res) (g : Ring) (a : ℕ) → P g → hit r (mapping a) + own_ring r g ≡ own_ring r (put a g))
    → ((a : ℕ) (g : Ring) → P g → Q (put a g))
    → Keeping P (mmap_ring off len put) Q
unfolding mmap_ring keep
mmap_ring-Keeps {P} {Q} off len put even leads = look-Keeps own_ring AnyRing (λ g.
    on_fd-Keeps g.fd
      (λ fd. call-Keeps own_ring AnyRing _ _ _ (λ r g' x p. kept fd r g' x p) leads (λ g' p. tt)))
  where
    kept :
        (fd : ℕ) (r : Res) (g : Ring) (x : Ret ℕ)
        → P g
        → gains r (mapped fd off len x) + own_ring r g
          ≡ losses r (mapped fd off len x) + own_ring r (keep put x g)
    kept fd r g (fine a) p = omega (arith, even r g a p)
    kept fd r g (fail e) p = omega arith

mmap_rings-Keeps : Keeping Bare mmap_rings NoCancel
unfolding mmap_rings point_queue
mmap_rings-Keeps = look-Keeps own_ring AnyRing (λ g.
    seq-Keeps own_ring AnyRing
      (mmap_ring-Keeps {P = Bare} {Q = OneMapped} _ _ _ (λ r g' a p. rw p.0 (omega arith))
        (λ a g' p. (p.1, p.2, p.3)))
      (seq-Keeps own_ring AnyRing
        (mmap_ring-Keeps {P = OneMapped} {Q = TwoMapped} _ _ _ (λ r g' a p. rw p.0 (omega arith))
          (λ a g' p. (p.1, p.2)))
        (seq-Keeps own_ring AnyRing
          (mmap_ring-Keeps {P = TwoMapped} {Q = NoCancel} _ _ _ (λ r g' a p. rw p.0 (omega arith))
            (λ a g' p. p.1))
          (record { balance = λ k o l r p. omega arith; after = λ k o l p. p }))))

-- A call that gains nothing for the ring.
idle_call-Keeps :
    {A : Type 0} {P Q : Ring → Type 0} (ask : Kernel → Log → Ret A) (event : Ret A → Event)
    (put : A → Ring → Ring)
    → ((r : Res) (x : Ret A) → (gains r (event x) ≡ 0) × (losses r (event x) ≡ 0))
    → ((r : Res) (g : Ring) (a : A) → P g → own_ring r (put a g) ≡ own_ring r g)
    → ((a : A) (g : Ring) → P g → Q (put a g))
    → Keeping P (call ask event put) Q
unfolding keep
idle_call-Keeps {A} {P} ask event put idle same leads =
    call-Keeps own_ring AnyRing ask event put kept leads (λ g p. tt)
  where
    kept :
        (r : Res) (g : Ring) (x : Ret A)
        → P g
        → gains r (event x) + own_ring r g ≡ losses r (event x) + own_ring r (keep put x g)
    kept r g (fine a) p = omega (arith, idle r (fine a), same r g a p)
    kept r g (fail e) p = omega (arith, idle r (fail e))

epoll_add_to-Keeps : {P : Ring → Type 0} (epfd fd : Option ℕ) → Keeping P (epoll_add_to epfd fd) P
unfolding epoll_add_to
epoll_add_to-Keeps epfd fd = on_fd-Keeps epfd (λ e.
    on_fd-Keeps fd
      (λ f. idle_call-Keeps _ _ _ (λ r x. (refl, refl)) (λ r g a p. refl) (λ a g p. p)))

eventfd-Keeps :
    Keeping NoCancel
      (call (λ k l. k.eventfd l) event_made (λ fd r. record r { cancel_fd = some fd }))
      NoEpoll
unfolding keep
eventfd-Keeps = call-Keeps own_ring AnyRing _ _ _ kept (λ a g p. p.1) (λ g p. tt)
  where
    kept :
        (r : Res) (g : Ring) (x : Ret ℕ)
        → NoCancel g
        → gains r (event_made x) + own_ring r g
          ≡ losses r (event_made x)
            + own_ring r (keep (λ fd g'. record g' { cancel_fd = some fd }) x g)
    kept r g (fine a) p = rw p.0 (omega arith)
    kept r g (fail e) p = omega arith

epoll_create-Keeps :
    Keeping NoEpoll
      (call (λ k l. k.epoll_create l) epoll_made (λ fd r. record r { epoll_fd = some fd }))
      AnyRing
unfolding keep
epoll_create-Keeps = call-Keeps own_ring AnyRing _ _ _ kept (λ a g p. tt) (λ g p. tt)
  where
    kept :
        (r : Res) (g : Ring) (x : Ret ℕ)
        → NoEpoll g
        → gains r (epoll_made x) + own_ring r g
          ≡ losses r (epoll_made x)
            + own_ring r (keep (λ fd g'. record g' { epoll_fd = some fd }) x g)
    kept r g (fine a) p = rw p (omega arith)
    kept r g (fail e) p = omega arith

setup_cancel-Keeps : Keeping NoCancel setup_cancel AnyRing
unfolding setup_cancel
setup_cancel-Keeps = seq-Keeps own_ring AnyRing eventfd-Keeps (
    seq-Keeps own_ring AnyRing epoll_create-Keeps (
      seq-Keeps own_ring AnyRing
        (look-Keeps own_ring AnyRing (λ g. epoll_add_to-Keeps {P = AnyRing} g.epoll_fd g.fd))
        (look-Keeps own_ring AnyRing
          (λ g. epoll_add_to-Keeps {P = AnyRing} g.epoll_fd g.cancel_fd))))

enter_ring-Keeps : (count flags : ℕ) → Keeping AnyRing (enter_ring count flags) AnyRing
unfolding enter_ring
enter_ring-Keeps count flags = look-Keeps own_ring AnyRing (λ g.
    on_fd-Keeps g.fd
      (λ fd. idle_call-Keeps _ _ _ (λ r x. (refl, refl)) (λ r g' a p. refl) (λ a g' p. p)))

pub submit-Keeps : Keeps own_ring AnyRing AnyRing submit AnyRing
unfolding submit
submit-Keeps = look-Keeps own_ring AnyRing (λ g.
    if_both (λ (m : Act Ring ℕ). Keeping AnyRing m AnyRing) _ _ _
      (give-Keeps own_ring AnyRing {A = ℕ} 0)
      (seq-Keeps own_ring AnyRing (change-Keeps own_ring AnyRing _ (λ r g' p. refl) (λ g' p. tt))
        (enter_ring-Keeps _ 0)))

pub submit_and_wait-Keeps : Keeps own_ring AnyRing AnyRing submit_and_wait AnyRing
unfolding submit_and_wait
submit_and_wait-Keeps = look-Keeps own_ring AnyRing (λ g.
    seq-Keeps own_ring AnyRing (change-Keeps own_ring AnyRing _ (λ r g' p. refl) (λ g' p. tt))
      (enter_ring-Keeps _ enter_getevents))

-- What a constructor returned owns.
abbrev pub own_made : Res → Ret Ring → ℕ
own_made r (fine g) = own_ring r g
own_made r (fail e) = 0

close_on_error-Kept :
    {A : Type 0} (k : Kernel) (n : ℕ) (l : Log) (r : Res) (out : Ret A × Ring × Log)
    → Kept r n l (own_ring r out.1) out.2
    → let made = close_on_error k out in Kept r n l (own_made r made.0) made.1
unfolding close_on_error
close_on_error-Kept k n l r (fine a, g, l') h = h
close_on_error-Kept k n l r (fail e, g, l') h = omega (arith, h, close_ring-Kept k g l' r)

open_ring-Kept :
    (k : Kernel) (size : ℕ) (l : Log) (r : Res) (x : Ret ℕ)
    → let made = open_ring k size l x in Kept r (hit_fd r x) l (own_made r made.0) made.1
unfolding open_ring
open_ring-Kept k size l r (fine fd) = close_on_error-Kept k (hit r (descriptor fd)) l r _ (
    omega (
      arith,
      (seq-Keeps own_ring AnyRing mmap_rings-Keeps setup_cancel-Keeps).balance k _ l r
          (refl, refl, refl, (refl, refl)),
    ))
open_ring-Kept k size l r (fail e) = omega arith

-- `setup` keeps the balance: what it acquires is what the ring owns that it returns, and on every
-- error path it has released all of it.
pub setup-Kept :
    (k : Kernel) (entries flags size : ℕ) (l : Log) (r : Res)
    → let made = setup k entries flags size l in Kept r 0 l (own_made r made.0) made.1
unfolding setup
setup-Kept k entries flags size l r =
    let x = k.ring_setup l entries flags in
    omega (arith, open_ring-Kept k size (ring_made entries flags x ∷ l) r x)

pub new_ring-Kept :
    (k : Kernel) (entries : ℕ) (l : Log) (r : Res)
    → Kept r 0 l (own_made r (new_ring k entries l).0) (new_ring k entries l).1
unfolding new_ring
new_ring-Kept k entries l r = setup-Kept k (round_up2 entries) 0 sqe64_size l r

pub new_sqe128-Kept :
    (k : Kernel) (entries : ℕ) (l : Log) (r : Res)
    → Kept r 0 l (own_made r (new_sqe128 k entries l).0) (new_sqe128 k entries l).1
unfolding new_sqe128
new_sqe128-Kept k entries l r = setup-Kept k (round_up2 entries) setup_sqe128 sqe128_size l r
