-- ===== src/Device/Control/Balance.antt =====
-- Control commands neither acquire nor release anything, and `openCharDev` acquires what the device
-- then holds.
use ublk_go.Prelude.{ℕ, ◌+◌, ◌≡◌, refl, Option, none, some, arith}
use ublk_go.Prelude.Int.{ℤ, pos, negsuc}
use ublk_go.Config.{Config}
use ublk_go.Types.{CtrlCmd, DevInfo}
use ublk_go.Uring.Sq.{Sq}
use ublk_go.Uring.Ring.{Ring, ebadf, on_fd, submit}
use ublk_go.Uring.Ring.Closing.{own_ring}
use ublk_go.Uring.Ring.Balance.{AnyRing, submit-Keeps}
use ublk_go.System.{Ret, fine, fail, Log, Kernel, Act, keep}
use ublk_go.System.Kept.{
  Res, Kept, Fits, own_fd, own_map, Keeps, bind-Keeps, seq-Keeps, give-Keeps, refuse-Keeps,
  attempt-Keeps, change-Keeps, look-Keeps, call-Keeps,
}
use ublk_go.Device.{QueueWorker, Device}
use ublk_go.Device.Control.{
  reads, in_device, on_ring, check_result, wait_ctrl, send, ctrl_command, add_legacy, add_dev,
  set_params, start_dev, stop_dev, del_dev, sq_full,
}

abbrev pub own_queue : Res → Option QueueWorker → ℕ
own_queue r none = 0
own_queue r (some w) = own_ring r w.ring + own_map r w.descs

-- What a device holds: its descriptors, its control ring, and its worker's ring and mapping.
abbrev pub own_device : Res → Device → ℕ
own_device r d = own_fd r d.ctrl_fd + own_fd r d.char_fd + own_ring r d.ring + own_queue r d.queue

module _ (I : Option ℕ → Option QueueWorker → Type 0) where
  -- What is said of the fields that commands leave alone.
  abbrev pub Stays : Device → Type 0
  Stays d = I d.char_fd d.queue

  -- Methods that keep the balance of a device, and those fields, however they end.
  abbrev pub Plain : {A : Type 0} → Act Device A → Type 0
  Plain m = Keeps own_device Stays Stays m Stays

  in_device-Fits :
      {A : Type 0} (d : Device) (out : Ret A × Ring × Log)
      → Stays d
      → Fits Stays Stays (in_device d out)
  unfolding in_device
  in_device-Fits d (fine a, g, l) p = p
  in_device-Fits d (fail e, g, l) p = p

  reads-Plain : {A : Type 0} (f : Kernel → Log → A) → Plain (reads f)
  unfolding reads
  reads-Plain f = record { balance = λ k d l r p. omega arith; after = λ k d l p. p }

  in_device-Kept :
      {A : Type 0} (d : Device) (l : Log) (r : Res) (out : Ret A × Ring × Log)
      → Kept r (own_ring r d.ring) l (own_ring r out.1) out.2
      → Kept r (own_device r d) l (own_device r (in_device d out).1) (in_device d out).2
  unfolding in_device
  in_device-Kept d l r (x, g, l') h = omega (arith, h)

  pub on_ring-Plain :
      {A : Type 0} (m : Act Ring A) → Keeps own_ring AnyRing AnyRing m AnyRing → Plain (on_ring m)
  unfolding on_ring
  on_ring-Plain m km = record {
    balance = λ k d l r p. in_device-Kept d l r (m k d.ring l) (km.balance k d.ring l r tt);
    after = λ k d l p. in_device-Fits d (m k d.ring l) p;
  }

  check_result-Plain : (res : ℤ) → Plain (check_result res)
  unfolding check_result
  check_result-Plain (pos n) = give-Keeps own_device Stays tt
  check_result-Plain (negsuc n) = refuse-Keeps own_device Stays Unit _ (λ d p. p)

  on_fd-Plain :
      {A : Type 0} (fd : Option ℕ) {f : ℕ → Act Device A}
      → ((n : ℕ) → Plain (f n))
      → Plain (on_fd fd f)
  unfolding on_fd
  on_fd-Plain {A = A} none kf = refuse-Keeps own_device Stays A ebadf (λ d p. p)
  on_fd-Plain (some fd) kf = kf fd

  wait_ctrl-Plain : Plain wait_ctrl
  unfolding wait_ctrl keep
  wait_ctrl-Plain = look-Keeps own_device Stays (λ d.
      on_fd-Plain d.ring.fd
        (λ fd. call-Keeps own_device Stays _ _ _ kept (λ a d' p. p) (λ d' p. p)))
    where
      kept :
          (r : Res) (d : Device) (x : Ret ℤ)
          → Stays d
          → 0 + own_device r d ≡ 0 + own_device r (keep (λ _ d'. d') x d)
      kept r d (fine a) p = refl
      kept r d (fail e) p = refl

  send-Plain : (op : ℕ) (cmd : CtrlCmd) (slot : Option ℕ × Sq) → Plain (send op cmd slot)
  unfolding send
  send-Plain op cmd (none, sq) =
      seq-Keeps own_device Stays (change-Keeps own_device Stays _ (λ r d p. refl) (λ d p. p))
        (refuse-Keeps own_device Stays Unit {P = Stays} sq_full (λ d p. p))
  send-Plain op cmd (some i, sq) =
      seq-Keeps own_device Stays
        (change-Keeps own_device Stays {Q = Stays} _ (λ r d p. refl) (λ d p. p))
        (seq-Keeps own_device Stays (on_ring-Plain submit submit-Keeps)
          (bind-Keeps own_device Stays wait_ctrl-Plain check_result-Plain))

  pub ctrl_command-Plain : (op : ℕ) (cmd : CtrlCmd) → Plain (ctrl_command op cmd)
  unfolding ctrl_command
  ctrl_command-Plain op cmd = look-Keeps own_device Stays (λ d. send-Plain op cmd _)

  add_legacy-Plain : (err : Option ℕ) (addr : ℕ) (info : DevInfo) → Plain (add_legacy err addr info)
  unfolding add_legacy
  add_legacy-Plain none addr info = change-Keeps own_device Stays _ (λ r d p. refl) (λ d p. p)
  add_legacy-Plain (some e) addr info = seq-Keeps own_device Stays (ctrl_command-Plain _ _) (
      bind-Keeps own_device Stays (reads-Plain _)
        (λ info'. change-Keeps own_device Stays _ (λ r d p. refl) (λ d p. p)))

  pub add_dev-Plain : (queues depth max_io_buf : ℕ) → Plain (add_dev queues depth max_io_buf)
  unfolding add_dev
  add_dev-Plain queues depth max_io_buf = bind-Keeps own_device Stays (reads-Plain _) (λ addr.
      bind-Keeps own_device Stays (attempt-Keeps own_device Stays (ctrl_command-Plain _ _)) (λ err.
        bind-Keeps own_device Stays (reads-Plain _) (λ info. add_legacy-Plain err addr info)))

  pub set_params-Plain :
      (size : ℕ) (cfg : Config) (max_sectors : ℕ) → Plain (set_params size cfg max_sectors)
  unfolding set_params
  set_params-Plain size cfg max_sectors =
      look-Keeps own_device Stays
        (λ d. bind-Keeps own_device Stays (reads-Plain _) (λ addr. ctrl_command-Plain _ _))

  pub start_dev-Plain : Plain start_dev
  unfolding start_dev
  start_dev-Plain =
      look-Keeps own_device Stays
        (λ d. bind-Keeps own_device Stays (reads-Plain _) (λ pid. ctrl_command-Plain _ _))

  pub stop_dev-Plain : Plain stop_dev
  unfolding stop_dev
  stop_dev-Plain = look-Keeps own_device Stays (λ d. ctrl_command-Plain _ _)

  pub del_dev-Plain : Plain del_dev
  unfolding del_dev
  del_dev-Plain = look-Keeps own_device Stays (λ d. ctrl_command-Plain _ _)
