-- ===== src/Device.antt =====
-- ublk/device.go: the control commands and the device's state, as calls of the system.
pub mod Params
pub mod Queue
pub mod Control
pub mod Opening
pub mod Life
use ublk_go.Prelude.{ℕ, Bool, Option, none, some}
use ublk_go.Types.{DevInfo}
use ublk_go.Uring.Ring.{Ring}
use ublk_go.System.{Log, Kernel, Act}

-- A worker's share of the resources: its ring, and the mapping of its descriptors, `none` for nil.
pub record QueueWorker : Type 0 where
  pub ring : Ring
  pub descs : Option ℕ

-- `Device`, with `none` for -1. The control ring is there until `shutdown`; `New` makes at most one
-- worker.
pub record Device : Type 0 where
  pub id : Option ℕ
  pub ctrl_fd : Option ℕ
  pub char_fd : Option ℕ
  pub ring : Ring
  pub info : DevInfo
  pub has_discarder : Bool
  pub has_zeroer : Bool
  pub use_ioctl : Bool
  pub queue : Option QueueWorker
