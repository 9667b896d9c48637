-- ===== src/Device/Life/Granted.antt =====
-- On a kernel that grants every call `New` returns a device that is up, and `Close` takes it down
-- without an error.
use ublk_go.Prelude.{
  ℕ, ◌*◌, ◌/◌, ◌^◌, ◌≤◌, ◌<◌, ◌≡◌, refl, subst, Bool, false, true, List, Option, none, some, arith,
  ◌∷◌, dec_le,
}
use ublk_go.Go.Words.{u32}
use ublk_go.Go.Bits.{len, len32}
use ublk_go.Go.Bits.Laws.{pow-two-le}
use ublk_go.Config.{Config, ConfigOption, default_config, apply_options, validate, max_queue_depth}
use ublk_go.Uring.Round.{round_up2, round_up2_least}
use ublk_go.Prelude.Int.{pos}
use ublk_go.Worker.{Worker}
use ublk_go.Device.Queue.{new_worker, fetched}
use ublk_go.Uring.Sq.Valid.{IsValid}
use ublk_go.Uring.Sq.Quiet.{IsQuiet}
use ublk_go.Uring.Sq.{Sq, flush_sq, consume}
use ublk_go.Uring.Ring.{
  setup_sqe128, sqe128_size, taken, enter_getevents, Ring, on_fd, new_ring, new_sqe128,
  submit_and_wait, enter_ring,
}
use ublk_go.Uring.Ring.Granted.{IsIdle, setup-granted}
use ublk_go.System.{
  fine, control, char_dev, block_dev, opened, mapped, entered, Log, ◌>>=◌, ◌>>◌, then_do, give,
  change, look, keep, call,
}
use ublk_go.System.Granted.{Answers, granting, HasRings}
use ublk_go.Device.{Device, QueueWorker}
use ublk_go.Device.Control.Granted.{
  on, set_params-granted, start_dev-granted, stop_dev-granted, del_dev-granted, add_dev-granted,
  open_char_dev-granted,
}
use ublk_go.Device.Control.{ctrl_op, new_info, added, path, stop_dev}
use ublk_go.Types.{sizeof_io_desc}
use ublk_go.Device.Life.Commands.{CameUp, CameFrom}
use ublk_go.Device.Life.{
  bare, del_added, shutdown, Handle, close, made, or_shutdown, open_device, ctrl_ready, ctrl_opened,
  if_valid, new, started, descs_ready, ring_ready, mmap_descs, start_queue, buf_size, bring_up,
}

small_exponent : (k : ℕ) → 2 ^ k < 2 ^ 31 → k ≤ 30
small_exponent k less = elim (dec_le k 30) [
  | yes h ↦ h
  | no h ↦ absurd (omega (arith, pow-two-le 31 k (omega arith), less))
]

pub validated_depth :
    (c : Config) (size : ℕ)
    → validate c size ≡ none
    → (1 ≤ c.queue_depth) × (c.queue_depth ≤ 4096) × (0 < c.max_io_size)
unfolding validate
validated_depth c size ok = ground arith

buf_size_pos : (addr : ℕ) (c : Config) (d : Device) → 0 < c.max_io_size → 0 < buf_size addr c d
unfolding buf_size
buf_size_pos addr c d some_size = ground arith

four : round_up2 4 ≡ 2 ^ 2
unfolding round_up2 len len32
four = refl

-- The ring of a queue whose worker `w` has gone through `init` and has submitted what it queued there:
-- it was made with an entry for each tag, and the kernel has taken all.
pub record Starts (addr : ℕ) (w : Worker) (char_fd : ℕ) (q : QueueWorker) : Type 0 where
  pub exponent : ℕ
  pub unused : Sq
  pub valid : IsValid exponent unused
  pub quiet : IsQuiet unused
  pub deep : w.depth ≤ 2 ^ exponent
  pub submitted :
      let r = flush_sq (fetched addr (pos char_fd) w unused) in q.ring.sq ≡ consume r.0 r.1

-- A device that is up: it has its number, which `Path` shows, its descriptors and its worker, and its control ring is
-- ready for the next command.
pub record IsUp (addr depth : ℕ) (d : Device) : Type 0 where
  pub id : ℕ
  pub numbered : d.id ≡ some id
  pub shown : path d ≡ some (block_dev id)
  pub ctrl_fd : ℕ
  pub controlled : d.ctrl_fd ≡ some ctrl_fd
  pub char_fd : ℕ
  pub has_char : d.char_fd ≡ some char_fd
  pub worker : QueueWorker
  pub has_worker : d.queue ≡ some worker
  pub buf_size : ℕ
  pub some_bytes : 0 < buf_size
  pub starts : Starts addr (new_worker 0 depth buf_size) char_fd worker
  pub idle : IsIdle 2 d.ring

module _ (a : Answers) (has : HasRings a) where
  -- The ring that `uring.New` makes for a queue has an entry for each of its tags.
  pub new_ring-granted :
      (depth : ℕ) (l : Log)
      → 1 ≤ depth
      → depth ≤ 4096
      → (k : ℕ) × (g : Ring) × (l' : Log) × (new_ring (granting a) depth l ≡ (fine g, l'))
        × IsIdle k g
        × (depth ≤ 2 ^ k)
  unfolding new_ring
  new_ring-granted depth l lo hi =
      let (k, small, pow, above, near) = round_up2_least depth lo (omega arith) in
      let (g, l', makes, idle) =
        setup-granted a k (round_up2 depth) 0 64 l has (small_exponent k (omega (arith, pow, near)))
          pow in
      (k, g, l', makes, idle, omega (arith, above, pow))

  pub submit_and_wait-granted :
      (g : Ring) (l : Log) (fd : ℕ)
      → g.fd ≡ some fd
      → (n : ℕ) × (g' : Ring) × (l' : Log) × (submit_and_wait (granting a) g l ≡ (fine n, g', l'))
        × (g'.sq ≡ consume (flush_sq g.sq).0 (flush_sq g.sq).1)
  unfolding submit_and_wait enter_ring on_fd ◌>>=◌ ◌>>◌ then_do look keep call change
  submit_and_wait-granted g l fd open_fd = (
    (flush_sq g.sq).0,
    taken (flush_sq g.sq).0 (record g { sq = (flush_sq g.sq).1 }),
    entered fd (flush_sq g.sq).0 enter_getevents (fine (flush_sq g.sq).0) ∷ l,
    rw open_fd refl,
    refl,
  )

  start_queue-granted :
      (addr : ℕ) (w : Worker) (d : Device) (l : Log) (fd : ℕ)
      → d.char_fd ≡ some fd
      → 1 ≤ w.depth
      → w.depth ≤ 4096
      → (q : QueueWorker) × (l' : Log) × (start_queue addr w (granting a) d l
          ≡ (fine tt, record d { queue = some q }, l'))
        × Starts addr w fd q
  unfolding start_queue ring_ready descs_ready mmap_descs started
  start_queue-granted addr w d l fd open_char lo hi =
      let (k, g, l1, makes, idle, deep) = new_ring-granted w.depth l lo hi in
      let size = w.depth * sizeof_io_desc in
      let off = w.qid * max_queue_depth * sizeof_io_desc in
      let at = a.address l1 fd off size in
      let sq = fetched addr (pos fd) w g.sq in
      let (n, g', l2, submits, taken_all) =
        submit_and_wait-granted (record g { sq = sq }) (mapped fd off size (fine at) ∷ l1) idle.fd
          idle.open_fd in
      (
        record { ring = g'; descs = some at },
        l2,
        rw (makes, open_char, submits) refl,
        record {
          exponent = k;
          unused = g.sq;
          valid = idle.valid;
          quiet = idle.quiet;
          deep = deep;
          submitted = taken_all;
        },
      )

  bring_up-granted :
      (addr : ℕ) (cfg : Config) (size : ℕ) (d : Device) (l : Log) (ctrl_fd : ℕ)
      → IsIdle 2 d.ring
      → d.ctrl_fd ≡ some ctrl_fd
      → d.queue ≡ none
      → 1 ≤ cfg.queue_depth
      → cfg.queue_depth ≤ 4096
      → 0 < cfg.max_io_size
      → (d' : Device) × (l' : Log) × (bring_up addr cfg size (granting a) d l ≡ (fine tt, d', l'))
        × IsUp addr cfg.queue_depth d'
        × CameUp a addr cfg size d.ring l d' l'
        × (d'.ctrl_fd ≡ some ctrl_fd)
  unfolding buf_size ctrl_op path bring_up ◌>>=◌ ◌>>◌ then_do look new_worker
  bring_up-granted addr cfg size d l ctrl_fd idle controlled unqueued lo hi some_size =
      let (g1, l1, adds, idle1, add_sent) =
        add_dev-granted a 2 1 cfg.queue_depth cfg.max_io_size d l idle in
      let info = a.fill_info l1 (new_info 1 cfg.queue_depth cfg.max_io_size) in
      let d1 = added true info (on d g1) in
      let node = char_dev (u32 info.dev_id) in
      let fd = a.path_fd l1 node in
      let l2 : Log = opened node (fine fd) ∷ l1 in
      let opens = open_char_dev-granted a 2 d1 l1 in
      let d2 : Device = record d1 { char_fd = some fd } in
      let c3 = set_params-granted a 2 size cfg (u32 (buf_size addr cfg d1) / 512) d2 l2 idle1 in
      let d3 = on d2 c3.ring in
      let bytes = buf_size addr cfg d1 in
      let (w, l4, starts, queued) =
        start_queue-granted addr (new_worker 0 cfg.queue_depth bytes) d3 c3.log fd refl lo hi in
      let d4 : Device = record d3 { queue = some w } in
      let c5 = start_dev-granted a 2 d4 l4 c3.idle in
      (
        on d4 c5.ring,
        c5.log,
        rw (adds, opens, c3.ends, starts, c5.ends) refl,
        record {
          id = info.dev_id;
          numbered = refl;
          shown = refl;
          ctrl_fd = ctrl_fd;
          controlled = controlled;
          char_fd = fd;
          has_char = refl;
          worker = w;
          has_worker = refl;
          buf_size = bytes;
          some_bytes = buf_size_pos addr cfg d1 some_size;
          starts = queued;
          idle = c5.idle;
        },
        record {
          added_ring = g1;
          added_log = l1;
          added = add_sent;
          informed = refl;
          numbered = refl;
          char = refl;
          set_ring = c3.ring;
          set_log = c3.log;
          set = c3.sent;
          queue_log = l4;
          queue =
              subst
                (λ (q : Option QueueWorker).
                  start_queue addr (new_worker 0 cfg.queue_depth bytes) (granting a)
                    (record d3 { queue = q }) c3.log
                  ≡ (fine tt, record d3 { queue = some w }, l4))
                unqueued starts;
          start = c5.sent;
        },
        controlled,
      )

  del_added-granted :
      (id : Option ℕ) (d : Device) (l : Log)
      → IsIdle 2 d.ring
      → (del_added id (granting a) d l).0 ≡ fine tt
  unfolding del_added give
  del_added-granted none d l idle = refl
  del_added-granted (some id) d l idle = rw (del_dev-granted a 2 d l idle).ends refl

  stopped-granted :
      (addr depth : ℕ) (d : Device) (l : Log)
      → IsUp addr depth d
      → let (_, d₁, l₁) = stop_dev (granting a) (bare d) l in
        (del_added d₁.id (granting a) d₁ l₁).0 ≡ fine tt
  stopped-granted addr depth d l up =
      let c = stop_dev-granted a 2 (bare d) l up.idle in
      rw c.ends (del_added-granted d.id (on (bare d) c.ring) c.log c.idle)

  shutdown-granted :
      (addr depth : ℕ) (d : Device) (l : Log)
      → IsUp addr depth d
      → (shutdown (granting a) d l).0 ≡ fine tt
  unfolding shutdown
  shutdown-granted addr depth d l up = stopped-granted addr depth d _ up

  -- On a kernel that grants every call, with new rings as large as asked for and unused, `New` with
  -- a backend and a configuration that `validate` accepts returns a device that is up: on the control
  -- descriptor that the open returned the kernel read ADD_DEV, then, once the char device was opened,
  -- SET_PARAMS, and, once the worker was started, START_DEV, each alone and with its completion taken;
  -- the device's number, which Path shows, is the one that ADD_DEV filled in, its char descriptor the
  -- one that the open of that number's node returned; and `Close` of it returns no error, even if the
  -- kernel reports errors for what is released.
  pub new_grants :
      (addr : ℕ) (has_discarder has_zeroer : Bool) (size : ℕ) (opts : List ConfigOption) (l : Log)
      → validate (apply_options opts default_config) size ≡ none
      → (h : Handle) × (l' : Log) × (new addr has_discarder has_zeroer false size opts
            (granting a)
            l
          ≡ (made h, l'))
        × IsUp addr (apply_options opts default_config).queue_depth h.device
        × CameFrom a addr (apply_options opts default_config) size l h.device l'
        × ((close (granting a) h l').0 ≡ fine tt)
  unfolding new if_valid ctrl_opened ctrl_ready or_shutdown open_device new_sqe128 close
  new_grants addr has_discarder has_zeroer size opts l ok =
      let cfg = apply_options opts default_config in
      let in_range = validated_depth cfg size ok in
      let fd = a.path_fd l control in
      let (g, l1, makes, idle) =
        setup-granted a 2 (round_up2 4) setup_sqe128 sqe128_size (opened control (fine fd) ∷ l) has
          (omega arith) four in
      let (d, l2, brings, up, came, controlled) =
        bring_up-granted addr cfg size (open_device has_discarder has_zeroer fd g) l1 fd idle refl
          refl in_range.0 in_range.1 in_range.2 in
      (
        record { device = d; once_done = false },
        l2,
        rw (ok, makes, brings) refl,
        up,
        (g, l1, controlled, makes, came),
        shutdown-granted addr cfg.queue_depth d l2 up,
      )
