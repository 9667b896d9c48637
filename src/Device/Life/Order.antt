-- ===== src/Device/Life/Order.antt =====
-- The order of the calls that `shutdown` of ublk/device.go makes.
use ublk_go.Prelude.{arith, ◌+◌, ℕ, ◌≡◌, refl, ap, ◌∙◌, [], ◌∷◌, ◌++◌, Option, none, some}
use ublk_go.Uring.Ring.{close_one, close_ring, wake_ring}
use ublk_go.System.{woken, joined, closed, Log, Kernel}
use ublk_go.System.Kept.{Res, Kept, acquired, released, own_fd}
use ublk_go.Uring.Ring.Closing.{own_ring}
use ublk_go.Device.Control.Balance.{own_device, own_queue}
use ublk_go.Device.Life.Shutdown.{cleanup_workers-Kept, shutdown-Kept}
use ublk_go.System.Added.{AllEvents, added_both}
use ublk_go.Device.{QueueWorker, Device}
use ublk_go.Device.Control.{stop_dev}
use ublk_go.Device.Life.{cancel_workers, cleanup_workers, del_added, bare, shutdown}
use ublk_go.Device.Life.Calls.{
  IsCommand, entering, reaping, IsRelease, unmapping, closing, stop_dev-Commanding,
  del_added-Commanding, close_one-Added, close_ring-Added, cleanup_workers-Added,
}

-- The event of closing a descriptor, if there is one.
abbrev pub closing_of : Option ℕ → Log
closing_of none = []
closing_of (some fd) = closed fd ∷ []

close_one-closing_of :
    (k : Kernel) (fd : Option ℕ) (l : Log) → (close_one k fd l).1 ≡ closing_of fd ++ l
unfolding close_one
close_one-closing_of k none l = refl
close_one-closing_of k (some fd) l = refl

-- The event of waking a worker, if there is one and it can be woken.
abbrev pub wakes_of : Option QueueWorker → Log
wakes_of none = []
wakes_of (some w) = elim w.ring.cancel_fd [ none ↦ [] | some fd ↦ woken fd ∷ [] ]

wake_ring_lem :
    (fd : Option ℕ) (l : Log)
    → wake_ring fd l ≡ (elim fd [ none ↦ [] | some e ↦ woken e ∷ [] ]) ++ l
unfolding wake_ring
wake_ring_lem none l = refl
wake_ring_lem (some fd) l = refl

cancel_workers-wakes_of : (w : Option QueueWorker) (l : Log) → cancel_workers w l ≡ wakes_of w ++ l
unfolding cancel_workers
cancel_workers-wakes_of none l = refl
cancel_workers-wakes_of (some w) l = wake_ring_lem w.ring.cancel_fd l

-- What such events acquire and release.
command-unowned :
    (r : Res) (l : Log) → AllEvents IsCommand l → (acquired r l ≡ 0) × (released r l ≡ 0)
command-unowned r [] all = (refl, refl)
command-unowned r (_ ∷ l) (entering, all) =
    let (none_acquired, none_released) = command-unowned r l all in
    (omega (arith, none_acquired), omega (arith, none_released))
command-unowned r (_ ∷ l) (reaping, all) =
    let (none_acquired, none_released) = command-unowned r l all in
    (omega (arith, none_acquired), omega (arith, none_released))

release-unowned : (r : Res) (l : Log) → AllEvents IsRelease l → acquired r l ≡ 0
release-unowned r [] all = refl
release-unowned r (_ ∷ l) (unmapping, all) = omega (arith, release-unowned r l all)
release-unowned r (_ ∷ l) (closing, all) = omega (arith, release-unowned r l all)

closing_of-owned :
    (r : Res) (fd : Option ℕ)
    → (acquired r (closing_of fd) ≡ 0) × (released r (closing_of fd) ≡ own_fd r fd)
closing_of-owned r none = (refl, refl)
closing_of-owned r (some fd) = (refl, omega arith)

wakes_of-unowned :
    (r : Res) (q : Option QueueWorker)
    → (acquired r (wakes_of q) ≡ 0) × (released r (wakes_of q) ≡ 0)
wakes_of-unowned r none = (refl, refl)
wakes_of-unowned r (some w) = woken-unowned w.ring.cancel_fd
  where
    woken-unowned :
        (fd : Option ℕ)
        → let l : Log = elim fd [ none ↦ [] | some e ↦ woken e ∷ [] ] in
          (acquired r l ≡ 0) × (released r l ≡ 0)
    woken-unowned none = (refl, refl)
    woken-unowned (some fd) = (refl, refl)

acquired-append : (r : Res) (l l' : Log) → acquired r (l ++ l') ≡ acquired r l + acquired r l'
acquired-append r [] l' = omega arith
acquired-append r (e ∷ l) l' = omega (arith, acquired-append r l l')

released-append : (r : Res) (l l' : Log) → released r (l ++ l') ≡ released r l + released r l'
released-append r [] l' = omega arith
released-append r (e ∷ l) l' = omega (arith, released-append r l l')

-- If all that the device holds is released once, the last releases are of what the others leave.
control-owned :
    (x : Res) (d : Device) (control commands workers l after : Log)
    → after
      ≡ control
        ++ (commands ++ (closing_of d.char_fd ++ (workers ++ (joined ∷ (wakes_of d.queue ++ l)))))
    → AllEvents IsRelease control
    → AllEvents IsCommand commands
    → AllEvents IsRelease workers
    → released x workers ≡ own_queue x d.queue
    → Kept x (own_device x d) l 0 after
    → released x control ≡ own_fd x d.ctrl_fd + own_ring x d.ring
control-owned x d control commands workers l after order c m w held kept =
    let woken = wakes_of d.queue ++ l in
    let t₁ : Log = joined ∷ woken in
    let t₂ = workers ++ t₁ in
    let t₃ = closing_of d.char_fd ++ t₂ in
    let t₄ = commands ++ t₃ in
    let (char_none, char_all) = closing_of-owned x d.char_fd in
    let (wake_none, wake_never) = wakes_of-unowned x d.queue in
    let (send_none, send_never) = command-unowned x commands m in
    omega (
      arith,
      kept,
      ap (acquired x) order,
      ap (released x) order,
      acquired-append x control t₄,
      released-append x control t₄,
      acquired-append x commands t₃,
      released-append x commands t₃,
      acquired-append x (closing_of d.char_fd) t₂,
      released-append x (closing_of d.char_fd) t₂,
      acquired-append x workers t₁,
      released-append x workers t₁,
      acquired-append x (wakes_of d.queue) l,
      released-append x (wakes_of d.queue) l,
      release-unowned x control c,
      release-unowned x workers w,
      char_none,
      char_all,
      wake_none,
      wake_never,
      send_none,
      send_never,
      held,
    )

-- A shutdown in order, newest events first. The worker's releases are, for each descriptor and mapping,
-- as many as the worker holds, and the last ones as many as the control ring and descriptor are.
pub record InOrder (d : Device) (before after : Log) : Type 0 where
  pub workers : Log
  pub workers_released : AllEvents IsRelease workers
  pub workers_all : (r : Res) → released r workers ≡ own_queue r d.queue
  pub commands : Log
  pub commanded : AllEvents IsCommand commands
  pub control : Log
  pub control_released : AllEvents IsRelease control
  pub control_all : (r : Res) → released r control ≡ own_fd r d.ctrl_fd + own_ring r d.ring
  pub order :
      after
      ≡ control
        ++ (commands
            ++ (closing_of d.char_fd ++ (workers ++ (joined ∷ (wakes_of d.queue ++ before)))))

-- Whatever the kernel answers, `shutdown` first wakes the worker and waits for its goroutine, only
-- then unmaps and closes exactly what the worker holds, then closes the char device, and only then sends
-- commands; and it releases exactly the control ring and the control descriptor after the last command.
pub shutdown-InOrder : (k : Kernel) (d : Device) (l : Log) → InOrder d l (shutdown k d l).1
unfolding shutdown
shutdown-InOrder k d l =
    let l₀ = joined ∷ cancel_workers d.queue l in
    let w = cleanup_workers-Added k d.queue l₀ in
    let l₁ = cleanup_workers k d.queue l₀ in
    let l₂ = (close_one k d.char_fd l₁).1 in
    let s = stop_dev k (bare d) l₂ in
    let e = del_added s.1.id k s.1 s.2 in
    let c =
      added_both (stop_dev-Commanding.added k (bare d) l₂)
        ((del_added-Commanding s.1.id).added k s.1 s.2) in
    let r =
      added_both (close_ring-Added k e.1.ring e.2)
        (close_one-Added k e.1.ctrl_fd (close_ring k e.1.ring e.2).2) in
    let order =
      r.in_front
      ∙ ap (λ (t : Log). r.events ++ t)
          (c.in_front
            ∙ ap (λ (t : Log). c.events ++ t)
                (close_one-closing_of k d.char_fd l₁
                  ∙ ap (λ (t : Log). closing_of d.char_fd ++ t)
                      (w.in_front
                        ∙ ap (λ (t : Log). w.events ++ (joined ∷ t))
                            (cancel_workers-wakes_of d.queue l)))) in
    let held : (x : Res) → released x w.events ≡ own_queue x d.queue = λ x. omega (
      arith,
      cleanup_workers-Kept k d.queue l₀ x,
      ap (acquired x) w.in_front,
      ap (released x) w.in_front,
      acquired-append x w.events l₀,
      released-append x w.events l₀,
      release-unowned x w.events w.all,
    ) in
    record {
      workers = w.events;
      workers_released = w.all;
      workers_all = held;
      commands = c.events;
      commanded = c.all;
      control = r.events;
      control_released = r.all;
      control_all = λ x.
          control-owned x d r.events c.events w.events l _ order r.all c.all w.all (held x)
            (shutdown-Kept k d l x);
      order = order;
    }
