-- ===== src/Device/Life/Shutdown.antt =====
-- `shutdown` and `cleanup` release all that they own, whatever errors the kernel reports.
use ublk_go.Prelude.{ℕ, ◌+◌, ◌≡◌, ◌∷◌, refl, Option, none, some, arith}
use ublk_go.Uring.Ring.{unmap_one, close_one, close_ring, wake_ring}
use ublk_go.Uring.Ring.Closing.{own_ring, close_ring-Kept, close_one-Kept, unmap_one-Kept}
use ublk_go.System.{Ret, fine, fail, joined, Log, Kernel}
use ublk_go.System.Kept.{Res, Kept, Fits, own_fd, Keeps, give-Keeps}
use ublk_go.Device.{QueueWorker, Device}
use ublk_go.Device.Control.{stop_dev}
use ublk_go.Device.Control.Balance.{own_device, own_queue, Stays, stop_dev-Plain, del_dev-Plain}
use ublk_go.Device.Life.{cleanup, cancel_workers, cleanup_workers, del_added, bare, shutdown}

pub cleanup-Kept :
    (k : Kernel) (w : QueueWorker) (l : Log) (r : Res)
    → Kept r (own_queue r (some w)) l 0 (cleanup k w l)
unfolding cleanup
cleanup-Kept k w l r =
    omega
      (arith, unmap_one-Kept k w.descs l r, close_ring-Kept k w.ring (unmap_one k w.descs l).1 r)

cancel_workers-Kept :
    (q : Option QueueWorker) (l : Log) (r : Res) → Kept r 0 l 0 (cancel_workers q l)
unfolding cancel_workers wake_ring
cancel_workers-Kept none l r = omega arith
cancel_workers-Kept (some w) l r = wake w.ring.cancel_fd
  where
    wake : (fd : Option ℕ) → Kept r 0 l 0 (wake_ring fd l)
    wake none = omega arith
    wake (some fd) = omega arith

pub cleanup_workers-Kept :
    (k : Kernel) (q : Option QueueWorker) (l : Log) (r : Res)
    → Kept r (own_queue r q) l 0 (cleanup_workers k q l)
unfolding cleanup_workers
cleanup_workers-Kept k none l r = omega arith
cleanup_workers-Kept k (some w) l r = cleanup-Kept k w l r

-- The fields that `shutdown` has cleared before it sends STOP_DEV.
abbrev Cleared : Option ℕ → Option QueueWorker → Type 0
Cleared c q = (c ≡ none) × (q ≡ none)

del_added-Plain :
    (id : Option ℕ)
    → Keeps own_device (Stays Cleared) (Stays Cleared) (del_added id) (Stays Cleared)
unfolding del_added
del_added-Plain none = give-Keeps own_device (Stays Cleared) tt
del_added-Plain (some id) = del_dev-Plain Cleared

in_any_case :
    {A : Type 0} (out : Ret A × Device × Log)
    → Fits (Stays Cleared) (Stays Cleared) out
    → Stays Cleared out.1
in_any_case (fine a, d, l) h = h
in_any_case (fail e, d, l) h = h

own_device-Cleared :
    (r : Res) (d : Device)
    → Stays Cleared d
    → own_device r d ≡ own_fd r d.ctrl_fd + own_ring r d.ring
own_device-Cleared r d p = rw (p.0, p.1) (omega arith)

-- `shutdown` releases all that the device owns, whatever errors its commands and calls meet.
pub shutdown-Kept :
    (k : Kernel) (d : Device) (l : Log) (r : Res) → Kept r (own_device r d) l 0 (shutdown k d l).1
unfolding shutdown
shutdown-Kept k d l r =
    let l₀ = cancel_workers d.queue l in
    let l₁ = cleanup_workers k d.queue (joined ∷ l₀) in
    let l₂ = (close_one k d.char_fd l₁).1 in
    let stop = stop_dev k (bare d) l₂ in
    let del = del_added stop.1.id k stop.1 stop.2 in
    let closed_ring = (close_ring k del.1.ring del.2).2 in
    let after_stop = in_any_case stop ((stop_dev-Plain Cleared).after k (bare d) l₂ (refl, refl)) in
    let after_del =
      in_any_case del ((del_added-Plain stop.1.id).after k stop.1 stop.2 after_stop) in
    omega (
      arith,
      cancel_workers-Kept d.queue l r,
      cleanup_workers-Kept k d.queue (joined ∷ l₀) r,
      close_one-Kept k d.char_fd l₁ r,
      (stop_dev-Plain Cleared).balance k (bare d) l₂ r (refl, refl),
      (del_added-Plain stop.1.id).balance k stop.1 stop.2 r after_stop,
      own_device-Cleared r del.1 after_del,
      close_ring-Kept k del.1.ring del.2 r,
      close_one-Kept k del.1.ctrl_fd closed_ring r,
    )
