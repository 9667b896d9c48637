-- ===== src/Device/Life/Calls.antt =====
-- Which calls the commands and the releases of ublk/device.go and ublk/worker.go make.
use ublk_go.Prelude.{ℕ, Option, none, some, if_both}
use ublk_go.Prelude.Int.{ℤ, pos, negsuc}
use ublk_go.Types.{CtrlCmd}
use ublk_go.Uring.Sq.{Sq}
use ublk_go.Uring.Ring.{Ring, ebadf, on_fd, submit, enter_ring, unmap_one, close_one, close_ring}
use ublk_go.System.{Ret, Event, entered, reaped, unmapped, closed, Log, Kernel, Act}
use ublk_go.System.Added.{
  Added, added_none, added_one, added_both, Adds, bind-Adds, seq-Adds, give-Adds, refuse-Adds,
  change-Adds, look-Adds, call-Adds,
}
use ublk_go.Device.{QueueWorker, Device}
use ublk_go.Device.Control.{
  in_device, on_ring, check_result, wait_ctrl, send, ctrl_command, stop_dev, del_dev, sq_full,
}
use ublk_go.Device.Life.{cleanup, cleanup_workers, del_added}

-- What a control command does: it enters the ring and takes a completion.
pub data IsCommand : Event → Type 0 where
  entering : {fd n flags : ℕ} {x : Ret ℕ} → IsCommand (entered fd n flags x)
  reaping : {fd : ℕ} {x : Ret ℤ} → IsCommand (reaped fd x)

pub data IsRelease : Event → Type 0 where
  unmapping : {a : ℕ} → IsRelease (unmapped a)
  closing : {fd : ℕ} → IsRelease (closed fd)

-- Commands.
abbrev pub Commanding : {O A : Type 0} → Act O A → Type 0
Commanding m = Adds IsCommand m

on_fd-Commanding :
    {O A : Type 0} (fd : Option ℕ) {f : ℕ → Act O A}
    → ((n : ℕ) → Commanding (f n))
    → Commanding (on_fd fd f)
unfolding on_fd
on_fd-Commanding {A = A} none af = refuse-Adds IsCommand A ebadf
on_fd-Commanding (some fd) af = af fd

submit-Commanding : Commanding submit
unfolding submit enter_ring
submit-Commanding = look-Adds IsCommand (λ g.
    if_both (λ (m : Act Ring ℕ). Commanding m) _ _ _ (give-Adds IsCommand {A = ℕ} 0)
      (seq-Adds IsCommand (change-Adds IsCommand _) (
        look-Adds IsCommand
          (λ g'. on_fd-Commanding g'.fd (λ fd. call-Adds IsCommand _ _ _ (λ x. entering))))))

in_device-Added :
    {A : Type 0} (d : Device) (l : Log) (out : Ret A × Ring × Log)
    → Added IsCommand l out.2
    → Added IsCommand l (in_device d out).2
unfolding in_device
in_device-Added d l (x, g, l') h = h

on_ring-Commanding : {A : Type 0} (m : Act Ring A) → Commanding m → Commanding (on_ring m)
unfolding on_ring
on_ring-Commanding m am = record {
  added = λ k d l. in_device-Added d l (m k d.ring l) (am.added k d.ring l);
}

wait_ctrl-Commanding : Commanding wait_ctrl
unfolding wait_ctrl
wait_ctrl-Commanding =
    look-Adds IsCommand
      (λ d. on_fd-Commanding d.ring.fd (λ fd. call-Adds IsCommand _ _ _ (λ x. reaping)))

check_result-Commanding : (res : ℤ) → Commanding (check_result res)
unfolding check_result
check_result-Commanding (pos n) = give-Adds IsCommand tt
check_result-Commanding (negsuc n) = refuse-Adds IsCommand Unit _

send-Commanding : (op : ℕ) (cmd : CtrlCmd) (slot : Option ℕ × Sq) → Commanding (send op cmd slot)
unfolding send
send-Commanding op cmd (none, sq) =
    seq-Adds IsCommand (change-Adds IsCommand _) (refuse-Adds IsCommand Unit sq_full)
send-Commanding op cmd (some i, sq) = seq-Adds IsCommand (change-Adds IsCommand _) (
    seq-Adds IsCommand (on_ring-Commanding submit submit-Commanding)
      (bind-Adds IsCommand wait_ctrl-Commanding check_result-Commanding))

ctrl_command-Commanding : (op : ℕ) (cmd : CtrlCmd) → Commanding (ctrl_command op cmd)
unfolding ctrl_command
ctrl_command-Commanding op cmd = look-Adds IsCommand (λ d. send-Commanding op cmd _)

pub stop_dev-Commanding : Commanding stop_dev
unfolding stop_dev
stop_dev-Commanding = look-Adds IsCommand (λ d. ctrl_command-Commanding _ _)

pub del_added-Commanding : (id : Option ℕ) → Commanding (del_added id)
unfolding del_added del_dev
del_added-Commanding none = give-Adds IsCommand tt
del_added-Commanding (some id) = look-Adds IsCommand (λ d. ctrl_command-Commanding _ _)

-- Releases.
unmap_one-Added : (k : Kernel) (m : Option ℕ) (l : Log) → Added IsRelease l (unmap_one k m l).1
unfolding unmap_one
unmap_one-Added k none l = added_none l
unmap_one-Added k (some a) l = added_one _ l unmapping

pub close_one-Added :
    (k : Kernel) (fd : Option ℕ) (l : Log) → Added IsRelease l (close_one k fd l).1
unfolding close_one
close_one-Added k none l = added_none l
close_one-Added k (some fd) l = added_one _ l closing

pub close_ring-Added : (k : Kernel) (g : Ring) (l : Log) → Added IsRelease l (close_ring k g l).2
unfolding close_ring
close_ring-Added k g l = added_both (unmap_one-Added k g.map_sq l) (
    added_both (unmap_one-Added k g.map_cq _) (
      added_both (unmap_one-Added k g.map_sqes _) (
        added_both (close_one-Added k g.epoll_fd _)
          (added_both (close_one-Added k g.cancel_fd _) (close_one-Added k g.fd _)))))

pub cleanup_workers-Added :
    (k : Kernel) (w : Option QueueWorker) (l : Log) → Added IsRelease l (cleanup_workers k w l)
unfolding cleanup_workers cleanup
cleanup_workers-Added k none l = added_none l
cleanup_workers-Added k (some w) l =
    added_both (unmap_one-Added k w.descs l) (close_ring-Added k w.ring _)
