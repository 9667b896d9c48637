-- ===== src/Device/Life.antt =====
-- How a device is made and released: `New` of ublk/ublk.go, `openDevice`, `shutdown` and `Close` of
-- ublk/device.go, and `init` and `cleanup` of ublk/worker.go.
pub mod Shutdown
pub mod Start
pub mod Commands
pub mod Balance
pub mod Granted
pub mod Fetching
pub mod Calls
pub mod Order
pub mod Refused
pub mod Begun
use ublk_go.Prelude.{
  ℕ, ◌+◌, ◌*◌, ◌/◌, ◌==◌, ◌∷◌, Bool, true, false, List, Option, none, some, if◌then◌else◌,
}
use ublk_go.Go.Words.{u32}
use ublk_go.Config.{
  Config, ConfigOption, ConfigError, default_config, apply_options, validate, max_queue_depth,
}
use ublk_go.Types.{sizeof_io_desc}
use ublk_go.Worker.{Worker}
use ublk_go.Device.Queue.{new_worker, fetched}
use ublk_go.Uring.Ring.{
  Ring, ebadf, unmap_one, close_one, close_ring, new_ring, new_sqe128, submit_and_wait, wake_ring,
}
use ublk_go.System.{
  Ret, fine, fail, control, opened, mapped, joined, Log, Kernel, Act, ◌>>◌, give, look,
}
use ublk_go.Device.{QueueWorker, Device}
use ublk_go.Device.Control.{
  fd_int, new_info, add_dev, open_char_dev, set_params, start_dev, stop_dev, del_dev,
}

-- `worker.cleanup`
unfoldable pub cleanup : Kernel → QueueWorker → Log → Log
cleanup k w l = let l' = (unmap_one k w.descs l).1 in (close_ring k w.ring l').2

-- `mmapDescs` at the char device.
unfoldable pub mmap_descs : Kernel → ℕ → ℕ → Option ℕ → Log → Ret ℕ × Log
mmap_descs k qid depth none l = (fail ebadf, l)
mmap_descs k qid depth (some fd) l =
    let size = depth * sizeof_io_desc in
    let off = qid * max_queue_depth * sizeof_io_desc in
    let x = k.mmap l fd off size in (x, mapped fd off size x ∷ l)

unfoldable pub started : Device → Option ℕ → Ret ℕ × Ring × Log → Ret Unit × Device × Log
started d descs (fine n, g, l) =
    (fine tt, record d { queue = some (record { ring = g; descs = descs }) }, l)
started d descs (fail e, g, l) =
    (fail e, record d { queue = some (record { ring = g; descs = descs }) }, l)

-- `addr` is the address of the memory that is allocated for the buffers.
module _ (addr : ℕ) where
  -- The rest of `init`, then the first lines of `run`, up to what `ready` is sent.
  unfoldable pub descs_ready :
      Worker → Ring → Ret ℕ × Log → Kernel → Device → Ret Unit × Device × Log
  descs_ready w g (fine a, l) k d =
      let sq = fetched addr (fd_int d.char_fd) w g.sq in
      started d (some a) (submit_and_wait k (record g { sq = sq }) l)
  descs_ready w g (fail e, l) k d = (fail e, d, cleanup k (record { ring = g; descs = none }) l)

  unfoldable pub ring_ready : Worker → Ret Ring × Log → Kernel → Device → Ret Unit × Device × Log
  ring_ready w (fine g, l) k d = descs_ready w g (mmap_descs k w.qid w.depth d.char_fd l) k d
  ring_ready w (fail e, l) k d = (fail e, d, l)

  unfoldable pub start_queue : Worker → Act Device Unit
  start_queue w = λ k d l. ring_ready w (new_ring k w.depth l) k d

  -- `bufSize` of `New`.
  unfoldable pub buf_size : Config → Device → ℕ
  buf_size cfg d = if d.info.max_io_buf_bytes == 0 then cfg.max_io_size else d.info.max_io_buf_bytes

  -- The calls of `New` on the opened device, each of which may end it with an error.
  unfoldable pub bring_up : Config → ℕ → Act Device Unit
  bring_up cfg size = do
    add_dev 1 cfg.queue_depth cfg.max_io_size
    look (λ d. do
      open_char_dev
      set_params size cfg (u32 (buf_size cfg d) / 512)
      start_queue (new_worker 0 cfg.queue_depth (buf_size cfg d))
      start_dev)

-- `for _, w := range d.workers { w.ioRing.Cancel() }`
unfoldable pub cancel_workers : Option QueueWorker → Log → Log
cancel_workers none l = l
cancel_workers (some w) l = wake_ring w.ring.cancel_fd l

unfoldable pub cleanup_workers : Kernel → Option QueueWorker → Log → Log
cleanup_workers k none l = l
cleanup_workers k (some w) l = cleanup k w l

unfoldable pub del_added : Option ℕ → Act Device Unit
del_added none = give tt
del_added (some id) = del_dev

-- The device once its workers are gone and its char device is closed.
abbrev pub bare : Device → Device
bare d = record d { char_fd = none; queue = none }

-- `shutdown`: the error of DEL_DEV, and the log.
unfoldable pub shutdown : Kernel → Device → Log → Ret Unit × Log
shutdown k d l =
    let l₁ = cleanup_workers k d.queue (joined ∷ cancel_workers d.queue l) in
    let l₂ = (close_one k d.char_fd l₁).1 in
    let (_, d₁, l₃) = stop_dev k (bare d) l₂ in
    let (err, d₂, l₄) = del_added d₁.id k d₁ l₃ in
    let (_, _, l₅) = close_ring k d₂.ring l₄ in (err, (close_one k d₂.ctrl_fd l₅).1)

-- What the caller of `New` keeps.
pub record Handle : Type 0 where
  pub device : Device
  pub once_done : Bool  -- closeOnce

unfoldable pub close : Kernel → Handle → Log → Ret Unit × Handle × Log
close k h l =
    if h.once_done
    then (fine tt, h, l)
    else let (err, l') = shutdown k h.device l in (err, record h { once_done = true }, l')

-- What `New` returns.
pub data Made : Type 0 where
  nil_backend : Made
  bad_config : ConfigError → Made
  failed : ℕ → Made
  made : Handle → Made

unfoldable pub or_shutdown : Kernel → Ret Unit × Device × Log → Made × Log
or_shutdown k (fine _, d, l) = (made (record { device = d; once_done = false }), l)
or_shutdown k (fail e, d, l) = (failed e, (shutdown k d l).1)

-- What `openDevice` returns, once the control ring is there.
unfoldable pub open_device : Bool → Bool → ℕ → Ring → Device
open_device has_discarder has_zeroer fd g = record {
  id = none;
  ctrl_fd = some fd;
  char_fd = none;
  ring = g;
  info = record (new_info 0 0 0) { dev_id = 0; flags = 0 };
  has_discarder = has_discarder;
  has_zeroer = has_zeroer;
  use_ioctl = false;
  queue = none;
}

module _ (addr : ℕ) (has_discarder has_zeroer : Bool) where
  unfoldable pub ctrl_ready : Config → ℕ → ℕ → Kernel → Ret Ring × Log → Made × Log
  ctrl_ready cfg size fd k (fine g, l) =
      or_shutdown k (bring_up addr cfg size k (open_device has_discarder has_zeroer fd g) l)
  ctrl_ready cfg size fd k (fail e, l) = (failed e, (close_one k (some fd) l).1)

  unfoldable pub ctrl_opened : Config → ℕ → Kernel → Ret ℕ → Log → Made × Log
  ctrl_opened cfg size k (fine fd) l = ctrl_ready cfg size fd k (new_sqe128 k 4 l)
  ctrl_opened cfg size k (fail e) l = (failed e, l)

  unfoldable pub if_valid : Config → ℕ → Option ConfigError → Kernel → Log → Made × Log
  if_valid cfg size (some e) k l = (bad_config e, l)
  if_valid cfg size none k l =
      let x = k.open_path l control in ctrl_opened cfg size k x (opened control x ∷ l)

  -- `New`, given whether the backend is nil and which capabilities it has.
  unfoldable pub new : Bool → ℕ → List ConfigOption → Kernel → Log → Made × Log
  new is_nil size opts k l =
      if is_nil
      then (nil_backend, l)
      else let cfg = apply_options opts default_config in if_valid cfg size (validate cfg size) k l
