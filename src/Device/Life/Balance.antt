-- ===== src/Device/Life/Balance.antt =====
-- Nothing leaks: whatever the kernel answers, `New` either returns a device that owns all that it
-- acquired, or has released all of it; and `Close` releases all that a device owns.
use ublk_go.Prelude.{ℕ, ◌+◌, ◌≡◌, ◌∷◌, refl, Bool, true, false, List, Option, none, some, arith}
use ublk_go.Config.{Config, ConfigOption, ConfigError, default_config, apply_options, validate}
use ublk_go.Uring.Ring.{Ring, new_sqe128}
use ublk_go.Uring.Ring.Closing.{own_ring, close_one-Kept}
use ublk_go.Uring.Ring.Balance.{own_made, new_sqe128-Kept}
use ublk_go.System.{Ret, fine, fail, control, opened, Log, Kernel}
use ublk_go.System.Kept.{Res, descriptor, hit, hit_fd, Kept}
use ublk_go.Device.{Device}
use ublk_go.Device.Control.Balance.{own_device}
use ublk_go.Device.Life.{
  shutdown, Handle, close, Made, nil_backend, bad_config, failed, made, or_shutdown, open_device,
  ctrl_ready, ctrl_opened, if_valid, new,
}
use ublk_go.Device.Life.Shutdown.{shutdown-Kept}
use ublk_go.Device.Life.Start.{bring_up-Keeps}

-- What the result of `New` owns.
abbrev pub own_result : Res → Made → ℕ
own_result r nil_backend = 0
own_result r (bad_config _) = 0
own_result r (failed _) = 0
own_result r (made h) = own_device r h.device

or_shutdown-Kept :
    (k : Kernel) (n : ℕ) (l : Log) (r : Res) (out : Ret Unit × Device × Log)
    → Kept r n l (own_device r out.1) out.2
    → Kept r n l (own_result r (or_shutdown k out).0) (or_shutdown k out).1
unfolding or_shutdown
or_shutdown-Kept k n l r (fine _, d, l') h = h
or_shutdown-Kept k n l r (fail e, d, l') h = omega (arith, h, shutdown-Kept k d l' r)

-- A device that `New` returns was not closed.
abbrev Unclosed : Made → Type 0
Unclosed nil_backend = Unit
Unclosed (bad_config _) = Unit
Unclosed (failed _) = Unit
Unclosed (made h) = h.once_done ≡ false

or_shutdown-Unclosed : (k : Kernel) (out : Ret Unit × Device × Log) → Unclosed (or_shutdown k out).0
unfolding or_shutdown
or_shutdown-Unclosed k (fine _, d, l) = refl
or_shutdown-Unclosed k (fail e, d, l) = tt

close_first :
    (k : Kernel) (h : Handle) (l : Log)
    → h.once_done ≡ false
    → close k h l
      ≡ ((shutdown k h.device l).0, record h { once_done = true }, (shutdown k h.device l).1)
unfolding close
close_first k h l e = rw e refl

close_again :
    (k : Kernel) (h : Handle) (l : Log) → h.once_done ≡ true → close k h l ≡ (fine tt, h, l)
unfolding close
close_again k h l e = rw e refl

module _ (addr : ℕ) (discarder zeroer : Bool) where
  ctrl_ready-Kept :
      (cfg : Config) (size fd : ℕ) (k : Kernel) (x : Ret Ring) (l : Log) (r : Res)
      → let out = ctrl_ready addr discarder zeroer cfg size fd k (x, l) in
        Kept r (own_made r x + hit r (descriptor fd)) l (own_result r out.0) out.1
  unfolding ctrl_ready open_device
  ctrl_ready-Kept cfg size fd k (fine g) l r =
      let d = open_device discarder zeroer fd g in
      or_shutdown-Kept k (own_ring r g + hit r (descriptor fd)) l r _
        (omega (arith, (bring_up-Keeps addr cfg size).balance k d l r (refl, refl)))
  ctrl_ready-Kept cfg size fd k (fail e) l r = omega (arith, close_one-Kept k (some fd) l r)

  ctrl_opened-Kept :
      (cfg : Config) (size : ℕ) (k : Kernel) (x : Ret ℕ) (l : Log) (r : Res)
      → let out = ctrl_opened addr discarder zeroer cfg size k x l in
        Kept r (hit_fd r x) l (own_result r out.0) out.1
  unfolding ctrl_opened
  ctrl_opened-Kept cfg size k (fine fd) l r =
      let x = new_sqe128 k 4 l in
      omega (arith, new_sqe128-Kept k 4 l r, ctrl_ready-Kept cfg size fd k x.0 x.1 r)
  ctrl_opened-Kept cfg size k (fail e) l r = omega arith

  if_valid-Kept :
      (cfg : Config) (size : ℕ) (err : Option ConfigError) (k : Kernel) (l : Log) (r : Res)
      → let out = if_valid addr discarder zeroer cfg size err k l in
        Kept r 0 l (own_result r out.0) out.1
  unfolding if_valid
  if_valid-Kept cfg size (some e) k l r = omega arith
  if_valid-Kept cfg size none k l r =
      let x = k.open_path l control in
      omega (arith, ctrl_opened-Kept cfg size k x (opened control x ∷ l) r)

  -- For every descriptor and every mapping, and whatever the kernel answers to each call: what `New`
  -- has acquired more often than released is what the device that it returns owns, and if it returns
  -- an error it has released each as often as acquired.
  pub new-Kept :
      (is_nil : Bool) (size : ℕ) (opts : List ConfigOption) (k : Kernel) (l : Log) (r : Res)
      → let out = new addr discarder zeroer is_nil size opts k l in
        Kept r 0 l (own_result r out.0) out.1
  unfolding new
  new-Kept true size opts k l r = omega arith
  new-Kept false size opts k l r =
      let cfg = apply_options opts default_config in
      if_valid-Kept cfg size (validate cfg size) k l r

  ctrl_ready-Unclosed :
      (cfg : Config) (size fd : ℕ) (k : Kernel) (out : Ret Ring × Log)
      → Unclosed (ctrl_ready addr discarder zeroer cfg size fd k out).0
  unfolding ctrl_ready
  ctrl_ready-Unclosed cfg size fd k (fine g, l) = or_shutdown-Unclosed k _
  ctrl_ready-Unclosed cfg size fd k (fail e, l) = tt

  ctrl_opened-Unclosed :
      (cfg : Config) (size : ℕ) (k : Kernel) (x : Ret ℕ) (l : Log)
      → Unclosed (ctrl_opened addr discarder zeroer cfg size k x l).0
  unfolding ctrl_opened
  ctrl_opened-Unclosed cfg size k (fine fd) l = ctrl_ready-Unclosed cfg size fd k _
  ctrl_opened-Unclosed cfg size k (fail e) l = tt

  if_valid-Unclosed :
      (cfg : Config) (size : ℕ) (err : Option ConfigError) (k : Kernel) (l : Log)
      → Unclosed (if_valid addr discarder zeroer cfg size err k l).0
  unfolding if_valid
  if_valid-Unclosed cfg size (some e) k l = tt
  if_valid-Unclosed cfg size none k l = ctrl_opened-Unclosed cfg size k (k.open_path l control) _

  new-Unclosed :
      (is_nil : Bool) (size : ℕ) (opts : List ConfigOption) (k : Kernel) (l : Log)
      → Unclosed (new addr discarder zeroer is_nil size opts k l).0
  unfolding new
  new-Unclosed true size opts k l = tt
  new-Unclosed false size opts k l = if_valid-Unclosed _ size _ k l

-- What is said of the log once the result of `New` is closed, if it is a device.
abbrev pub AfterClose : Kernel → Log → Made × Log → Type 0
AfterClose k l (nil_backend, l') = (r : Res) → Kept r 0 l 0 l'
AfterClose k l (bad_config _, l') = (r : Res) → Kept r 0 l 0 l'
AfterClose k l (failed _, l') = (r : Res) → Kept r 0 l 0 l'
AfterClose k l (made h, l') =
    let done = close k h l' in
    ((r : Res) → Kept r 0 l 0 done.2)
    × ((k' : Kernel) (l'' : Log) → close k' done.1 l'' ≡ (fine tt, done.1, l''))

after_close :
    (k : Kernel) (l : Log) (out : Made × Log)
    → ((r : Res) → Kept r 0 l (own_result r out.0) out.1)
    → Unclosed out.0
    → AfterClose k l out
after_close k l (nil_backend, l') kept u = kept
after_close k l (bad_config _, l') kept u = kept
after_close k l (failed _, l') kept u = kept
after_close k l (made h, l') kept u = rw (close_first k h l' u) (
  (λ r. omega (arith, kept r, shutdown-Kept k h.device l' r)),
  λ k' l''. close_again k' (record h { once_done = true }) l'' refl,
)

-- Whatever the kernel answers to each call: if `New` returns an error, every descriptor and every
-- mapping was released as often as acquired; if it returns a device, `Close` makes it so, and any
-- further `Close` calls nothing and returns no error.
pub close-new_balance :
    (addr : ℕ) (discarder zeroer is_nil : Bool) (size : ℕ) (opts : List ConfigOption) (k : Kernel)
    (l : Log)
    → AfterClose k l (new addr discarder zeroer is_nil size opts k l)
close-new_balance addr discarder zeroer is_nil size opts k l =
    after_close k l (new addr discarder zeroer is_nil size opts k l)
      (new-Kept addr discarder zeroer is_nil size opts k l)
      (new-Unclosed addr discarder zeroer is_nil size opts k l)
