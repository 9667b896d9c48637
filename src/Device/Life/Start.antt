-- ===== src/Device/Life/Start.antt =====
-- `bring_up`: what `New` does once the control device is open keeps the balance, however it ends.
use ublk_go.Prelude.{ℕ, ◌+◌, ◌≡◌, Option, none, some, arith}
use ublk_go.Config.{Config}
use ublk_go.Worker.{Worker}
use ublk_go.Device.Queue.{fetched}
use ublk_go.Device.Control.{fd_int}
use ublk_go.Uring.Ring.{Ring, new_ring}
use ublk_go.Uring.Ring.Closing.{own_ring}
use ublk_go.Uring.Ring.Balance.{own_made, new_ring-Kept, submit_and_wait-Keeps}
use ublk_go.System.{Ret, fine, fail, Log, Kernel}
use ublk_go.System.Kept.{
  Res, mapping, hit, hit_map, Kept, Fits, Keeps, seq-Keeps, look-Keeps, weaken-Keeps,
}
use ublk_go.Device.{QueueWorker, Device}
use ublk_go.Device.Control.Balance.{own_device, add_dev-Plain, set_params-Plain, start_dev-Plain}
use ublk_go.Device.Opening.{NoQueue, Fresh, open_char_dev-Keeps}
use ublk_go.Device.Life.{mmap_descs, started, descs_ready, ring_ready, start_queue, bring_up}
use ublk_go.Device.Life.Shutdown.{cleanup-Kept}

abbrev pub AnyDevice : Device → Type 0
AnyDevice d = Unit

any-Fits : {A : Type 0} (out : Ret A × Device × Log) → Fits AnyDevice AnyDevice out
any-Fits (fine a, d, l) = tt
any-Fits (fail e, d, l) = tt

mmap_descs-Kept :
    (k : Kernel) (qid depth : ℕ) (fd : Option ℕ) (l : Log) (r : Res)
    → let out = mmap_descs k qid depth fd l in Kept r 0 l (hit_map r out.0) out.1
unfolding mmap_descs
mmap_descs-Kept k qid depth none l r = omega arith
mmap_descs-Kept k qid depth (some fd) l r = omega arith

started-Kept :
    (d : Device) (a n : ℕ) (l : Log) (r : Res) (out : Ret ℕ × Ring × Log)
    → d.queue ≡ none
    → Kept r n l (own_ring r out.1) out.2
    → Kept r
        (own_device r d + n + hit r (mapping a))
        l
        (own_device r (started d (some a) out).1)
        (started d (some a) out).2
unfolding started
started-Kept d a n l r (fine m, g, l') free h = rw free (omega (arith, h))
started-Kept d a n l r (fail e, g, l') free h = rw free (omega (arith, h))

module _ (addr : ℕ) where
  descs_ready-Kept :
      (w : Worker) (g : Ring) (x : Ret ℕ) (l : Log) (k : Kernel) (d : Device) (r : Res)
      → NoQueue d
      → let out = descs_ready addr w g (x, l) k d in
        Kept r (own_device r d + own_ring r g + hit_map r x) l (own_device r out.1) out.2
  unfolding descs_ready
  descs_ready-Kept w g (fine a) l k d r free = started-Kept d a (own_ring r g) l r _ free (
      submit_and_wait-Keeps.balance k (record g { sq = fetched addr (fd_int d.char_fd) w g.sq }) l r
        tt)
  descs_ready-Kept w g (fail e) l k d r free =
      omega (arith, cleanup-Kept k (record { ring = g; descs = none }) l r)

  ring_ready-Kept :
      (w : Worker) (x : Ret Ring) (l : Log) (k : Kernel) (d : Device) (r : Res)
      → NoQueue d
      → let out = ring_ready addr w (x, l) k d in
        Kept r (own_device r d + own_made r x) l (own_device r out.1) out.2
  unfolding ring_ready
  ring_ready-Kept w (fine g) l k d r free =
      let m = mmap_descs k w.qid w.depth d.char_fd l in
      omega (
        arith,
        mmap_descs-Kept k w.qid w.depth d.char_fd l r,
        descs_ready-Kept w g m.0 m.1 k d r free,
      )
  ring_ready-Kept w (fail e) l k d r free = omega arith

  start_queue-Keeps :
      (w : Worker) → Keeps own_device AnyDevice NoQueue (start_queue addr w) AnyDevice
  unfolding start_queue
  start_queue-Keeps w = record {
    balance = λ k d l r free.
        let x = new_ring k w.depth l in
        omega (arith, new_ring-Kept k w.depth l r, ring_ready-Kept w x.0 x.1 k d r free);
    after = λ k d l free. any-Fits (start_queue addr w k d l);
  }

  abbrev Unopened : Option ℕ → Option QueueWorker → Type 0
  Unopened c q = (c ≡ none) × (q ≡ none)

  abbrev Unqueued : Option ℕ → Option QueueWorker → Type 0
  Unqueued c q = q ≡ none

  abbrev Free : Option ℕ → Option QueueWorker → Type 0
  Free c q = Unit

  pub bring_up-Keeps :
      (cfg : Config) (size : ℕ)
      → Keeps own_device AnyDevice Fresh (bring_up addr cfg size) AnyDevice
  unfolding bring_up
  bring_up-Keeps cfg size =
      seq-Keeps own_device AnyDevice
        (weaken-Keeps {Q' = Fresh} (λ d p. tt) (λ d p. p) (add_dev-Plain Unopened _ _ _))
        (look-Keeps own_device AnyDevice (λ d₀.
          seq-Keeps own_device AnyDevice
            (weaken-Keeps {Q' = NoQueue} (λ d p. tt) (λ d p. p) open_char_dev-Keeps)
            (seq-Keeps own_device AnyDevice
              (weaken-Keeps {Q' = NoQueue} (λ d p. tt) (λ d p. p) (set_params-Plain Unqueued _ _ _))
              (seq-Keeps own_device AnyDevice (start_queue-Keeps _) (start_dev-Plain Free)))))
