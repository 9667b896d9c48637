-- ===== src/Device/Control.antt =====
-- The methods of `Device` in ublk/device.go that send control commands, and `openCharDev`.
pub mod Balance
pub mod Granted
use ublk_go.Prelude.{
  ℕ, zero, suc, ◌∷◌, ◌+◌, ◌^◌, ◌-◌, Bool, true, false, Option, none, some, replicate, ◌==◌,
  if◌then◌else◌,
}
use ublk_go.Prelude.Int.{ℤ, pos, negsuc}
use ublk_go.Prelude.Memory.{overwrite}
use ublk_go.Go.Words.{u16, u32, to_int32}
use ublk_go.Types.{
  CtrlCmd, ctrl_cmd_bytes, DevInfo, sizeof_dev_info, flag_cmd_ioctl_encode, cmd_add_dev,
  cmd_del_dev, cmd_start_dev, cmd_stop_dev, cmd_set_params, u_cmd_add_dev, u_cmd_del_dev,
  u_cmd_start_dev, u_cmd_stop_dev, u_cmd_set_params,
}
use ublk_go.Config.{Config}
use ublk_go.Uring.Entry.{Sqe, op_uring_cmd, zero_sqe, sqe128_cmd}
use ublk_go.Uring.Sq.{Sq, get_sqe128, write_sqe}
use ublk_go.Uring.Ring.{Ring, on_fd, submit}
use ublk_go.System.{
  Ret, fine, fail, DevicePath, char_dev, block_dev, Event, opened, reaped, slept, Log, Kernel, Act,
  ◌>>=◌, ◌>>◌, give, refuse, attempt, change, look, keep, call,
}
use ublk_go.Device.Params.{device_params, sizeof_ublk_params}
use ublk_go.Device.{Device}

-- An `int` field that holds a descriptor or -1.
abbrev pub fd_int : Option ℕ → ℤ
fd_int none = negsuc 0
fd_int (some fd) = pos fd

-- `uint32(d.id)`
abbrev pub id_word : Option ℕ → ℕ
id_word none = 2 ^ 32 - 1
id_word (some n) = u32 n

-- `Path`, with `none` for "".
unfoldable pub path : Device → Option DevicePath
path d = block_path d.id
  where
    block_path : Option ℕ → Option DevicePath
    block_path none = none
    block_path (some n) = some (block_dev n)

abbrev pub no_queue : ℕ
no_queue = 2 ^ 16 - 1

-- `fmt.Errorf("control ring SQ full")` has no number of its own.
abbrev pub sq_full : ℕ
sq_full = 0

abbrev pub enoent : ℕ
enoent = 2

-- What the kernel decides without a call of its own.
unfoldable pub reads : {A : Type 0} → (Kernel → Log → A) → Act Device A
reads f = λ k d l. (fine (f k l), d, l)

unfoldable pub in_device : {A : Type 0} → Device → Ret A × Ring × Log → Ret A × Device × Log
in_device d (x, g, l) = (x, record d { ring = g }, l)

-- A method of the control ring.
unfoldable pub on_ring : {A : Type 0} → Act Ring A → Act Device A
on_ring m = λ k d l. in_device d (m k d.ring l)

unfoldable pub ctrl_sqe : ℕ → Option ℕ → CtrlCmd → Sqe
ctrl_sqe op ctrl_fd cmd = record (zero_sqe sqe128_cmd) {
  opcode = op_uring_cmd;
  fd = to_int32 (fd_int ctrl_fd);
  off = op;
  cmd = overwrite 0 32 (ctrl_cmd_bytes cmd) (replicate sqe128_cmd 0);
}

abbrev pub with_sq : Sq → Device → Device
with_sq sq d = record d { ring = record d.ring { sq = sq } }

-- `if res < 0`
unfoldable pub check_result : ℤ → Act Device Unit
check_result (pos n) = give tt
check_result (negsuc n) = refuse (n + 1)

-- `WaitCQE` and `SeenCQE`: the result of the completion.
unfoldable pub wait_ctrl : Act Device ℤ
wait_ctrl = look (λ d. on_fd d.ring.fd (λ fd. call (λ k l. k.reap l fd) (reaped fd) (λ _ d'. d')))

-- The rest of `ctrlCommand`, once a slot is asked for.
unfoldable pub send : ℕ → CtrlCmd → Option ℕ × Sq → Act Device Unit
send op cmd (none, sq) = change (with_sq sq) >> refuse sq_full
send op cmd (some i, sq) = do
  change (λ d. with_sq (write_sqe i (ctrl_sqe op d.ctrl_fd cmd) sq) d)
  on_ring submit
  res ← wait_ctrl
  check_result res

unfoldable pub ctrl_command : ℕ → CtrlCmd → Act Device Unit
ctrl_command op cmd = look (λ d. send op cmd (get_sqe128 d.ring.sq))

unfoldable pub ctrl_op : ℕ → ℕ → Device → ℕ
ctrl_op ioctl_cmd legacy_cmd d = if d.use_ioctl then ioctl_cmd else legacy_cmd

-- A command with the device's number, no queue and nothing else.
abbrev pub plain_cmd : ℕ → CtrlCmd
plain_cmd id = record {
  dev_id = id;
  queue_id = no_queue;
  len = 0;
  addr = 0;
  payload = 0;
  dev_path_len = 0;
  pad = 0;
  reserved = 0;
}

unfoldable pub new_info : ℕ → ℕ → ℕ → DevInfo
new_info queues depth max_io_buf = record {
  nr_hw_queues = queues;
  queue_depth = depth;
  state = 0;
  pad0 = 0;
  max_io_buf_bytes = max_io_buf;
  dev_id = 2 ^ 32 - 1;
  ublksrv_pid = pos 0;
  pad1 = 0;
  flags = flag_cmd_ioctl_encode;
  ublksrv_flags = 0;
  owner_uid = 0;
  owner_gid = 0;
  reserved1 = 0;
  reserved2 = 0;
}

abbrev pub add_cmd : ℕ → CtrlCmd
add_cmd addr = record (plain_cmd (2 ^ 32 - 1)) { addr = addr; len = sizeof_dev_info }

-- The last lines of `addDev`.
abbrev pub added : Bool → DevInfo → Device → Device
added ioctl info d = record d { use_ioctl = ioctl; info = info; id = some info.dev_id }

-- The encoded command, and the legacy one if that fails, with what the kernel left in `info`.
unfoldable pub add_legacy : Option ℕ → ℕ → DevInfo → Act Device Unit
add_legacy none addr info = change (added true info)
add_legacy (some e) addr info = do
  ctrl_command cmd_add_dev (add_cmd addr)
  info' ← reads (λ k l. k.fill_info l (record info { flags = 0 }))
  change (added false info')

unfoldable pub add_dev : ℕ → ℕ → ℕ → Act Device Unit
add_dev queues depth max_io_buf = do
  addr ← reads (λ k l. k.struct_addr l)
  err ← attempt (ctrl_command u_cmd_add_dev (add_cmd addr))
  info ← reads (λ k l. k.fill_info l (new_info queues depth max_io_buf))
  add_legacy err addr info

-- One pass of the loop of `openCharDev`; `again` is the passes that are left.
unfoldable pub tried : (ℕ → Act Device Unit) → Ret ℕ → Act Device Unit
tried again (fine fd) = give tt
tried again (fail e) = if e == enoent then (λ k d l. again e k d (slept ∷ l)) else refuse e

unfoldable pub open_loop : ℕ → DevicePath → ℕ → Act Device Unit
open_loop zero path last = refuse last
open_loop (suc n) path last = λ k d l.
    let x = k.open_path l path in
    tried (open_loop n path) x k (keep (λ fd d'. record d' { char_fd = some fd }) x d)
      (opened path x ∷ l)

unfoldable pub open_char_dev : Act Device Unit
open_char_dev = look (λ d. open_loop 50 (char_dev (id_word d.id)) 0)

unfoldable pub set_params : ℕ → Config → ℕ → Act Device Unit
set_params size cfg max_sectors = look (λ d. do
  addr ← reads (λ k l. k.struct_addr l)
  ctrl_command (ctrl_op u_cmd_set_params cmd_set_params d) (record (plain_cmd (id_word d.id)) {
    addr = addr;
    len = u16 (device_params size cfg max_sectors d.has_discarder d.has_zeroer).len;
  }))

unfoldable pub start_dev : Act Device Unit
start_dev = look (λ d. do
  pid ← reads (λ k l. k.pid)
  ctrl_command (ctrl_op u_cmd_start_dev cmd_start_dev d)
      (record (plain_cmd (id_word d.id)) { payload = pid }))

unfoldable pub stop_dev : Act Device Unit
stop_dev =
    look (λ d. ctrl_command (ctrl_op u_cmd_stop_dev cmd_stop_dev d) (plain_cmd (id_word d.id)))

unfoldable pub del_dev : Act Device Unit
del_dev = look (λ d. ctrl_command (ctrl_op u_cmd_del_dev cmd_del_dev d) (plain_cmd (id_word d.id)))
