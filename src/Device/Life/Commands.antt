-- ===== src/Device/Life/Commands.antt =====
-- What `New` of ublk/ublk.go tells the kernel about a device that comes up, and in which order.
use ublk_go.Prelude.{ℕ, ◌/◌, ◌≡◌, ◌∷◌, some, none}
use ublk_go.Go.Words.{u32}
use ublk_go.Config.{Config}
use ublk_go.Types.{u_cmd_add_dev, u_cmd_set_params, u_cmd_start_dev}
use ublk_go.Uring.Ring.{Ring, new_sqe128}
use ublk_go.System.{fine, control, char_dev, opened, Log}
use ublk_go.System.Granted.{Answers, granting}
use ublk_go.Device.{Device}
use ublk_go.Device.Queue.{new_worker}
use ublk_go.Device.Control.{ctrl_sqe, add_cmd, new_info}
use ublk_go.Device.Control.Granted.{Sent, params_cmd, start_cmd}
use ublk_go.Device.Life.{buf_size, start_queue}

-- From the control ring `g` and the log `l` to the device `d` and the log `l'`: ADD_DEV is sent and
-- fills in the information, whose number is the device's; its char device is opened; SET_PARAMS is
-- sent; the worker is started; and START_DEV is sent last.
pub record CameUp (a : Answers) (addr : ℕ) (cfg : Config) (size : ℕ) (g : Ring) (l : Log)
    (d : Device) (l' : Log) : Type 0 where
  pub added_ring : Ring
  pub added_log : Log
  pub added :
      Sent 2 (ctrl_sqe u_cmd_add_dev d.ctrl_fd (add_cmd (a.struct_addr l))) g l added_ring added_log
  pub informed : d.info ≡ a.fill_info added_log (new_info 1 cfg.queue_depth cfg.max_io_size)
  pub numbered : d.id ≡ some d.info.dev_id
  pub char : d.char_fd ≡ some (a.path_fd added_log (char_dev (u32 d.info.dev_id)))
  pub set_ring : Ring
  pub set_log : Log
  pub set :
      let path = char_dev (u32 d.info.dev_id) in
      let l₁ : Log = opened path (fine (a.path_fd added_log path)) ∷ added_log in
      Sent 2
        (ctrl_sqe u_cmd_set_params d.ctrl_fd
          (params_cmd a size cfg (u32 (buf_size addr cfg d) / 512) d l₁))
        added_ring
        l₁
        set_ring
        set_log
  pub queue_log : Log
  pub queue :
      start_queue addr
        (new_worker 0 cfg.queue_depth (buf_size addr cfg d))
        (granting a)
        (record d { ring = set_ring; queue = none })
        set_log
      ≡ (fine tt, record d { ring = set_ring }, queue_log)
  pub start :
      Sent 2 (ctrl_sqe u_cmd_start_dev d.ctrl_fd (start_cmd a d)) set_ring queue_log d.ring l'

-- The same from the log `l` that `New` begins with: the control descriptor is the one that the open
-- returned, and the control ring is set up next.
abbrev pub CameFrom : Answers → ℕ → Config → ℕ → Log → Device → Log → Type 0
CameFrom a addr cfg size l d l' =
    (g : Ring) × (l₁ : Log) × (d.ctrl_fd ≡ some (a.path_fd l control))
    × (new_sqe128 (granting a) 4 (opened control (fine (a.path_fd l control)) ∷ l) ≡ (fine g, l₁))
    × CameUp a addr cfg size g l₁ d l'
