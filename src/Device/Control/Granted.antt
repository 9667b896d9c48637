-- ===== src/Device/Control/Granted.antt =====
-- On a kernel that grants every call each control command succeeds.
use ublk_go.Prelude.{
  ℕ, ◌≡◌, ◌∷◌, refl, ap, List, [], ◌++◌, none_of_length, ap₂, ◌∙◌, sym, subst, Option, some, arith,
  true,
}
use ublk_go.Prelude.Int.{pos}
use ublk_go.Go.Words.{sub_u32, u16}
use ublk_go.Go.Bits.Laws.{pow-two-pos}
use ublk_go.Types.{
  CtrlCmd, u_cmd_add_dev, u_cmd_set_params, cmd_set_params, u_cmd_start_dev, cmd_start_dev,
  u_cmd_stop_dev, cmd_stop_dev, u_cmd_del_dev, cmd_del_dev,
}
use ublk_go.Config.{Config}
use ublk_go.Device.Params.{device_params}
use ublk_go.Uring.Entry.{Sqe}
use ublk_go.Uring.Sq.{Sq, get_sqe128, write_sqe, flush_sq, consume}
use ublk_go.Uring.Sq.Valid.{IsValid, unread, pending_sqes, queued_sqes, pending-length}
use ublk_go.Uring.Sq.Slots.{get_sqe128-Handed}
use ublk_go.Uring.Ring.{Ring, on_fd, taken}
use ublk_go.Uring.Ring.Granted.{IsIdle, submit_one-granted}
use ublk_go.System.{
  Ret, fine, opened, entered, char_dev, reaped, Log, ◌>>=◌, ◌>>◌, then_do, give, change, look, keep,
  call, attempt, caught,
}
use ublk_go.System.Granted.{Answers, granting}
use ublk_go.Device.{Device}
use ublk_go.Device.Control.{
  id_word, plain_cmd, ctrl_op, new_info, add_cmd, reads, in_device, on_ring, ctrl_sqe, check_result,
  wait_ctrl, send, ctrl_command, add_legacy, added, add_dev, open_loop, open_char_dev, tried,
  set_params, start_dev, stop_dev, del_dev,
}

abbrev pub on : Device → Ring → Device
on d g = record d { ring = g }

-- Between two states of a ring and the log one entry is submitted, the kernel reads exactly that
-- one, and its completion is taken.
pub record Sent (k : ℕ) (e : Sqe) (g : Ring) (l : Log) (g' : Ring) (l' : Log) : Type 0 where
  pub fd : ℕ
  pub open_fd : g.fd ≡ some fd
  pub queued : Sq
  pub valid : IsValid k queued
  pub given : queued_sqes k (flush_sq queued).1 ≡ e ∷ []
  pub taken_all : g'.sq ≡ consume (flush_sq queued).0 (flush_sq queued).1
  pub result : ℕ
  pub logged : l' ≡ reaped fd (fine (pos result)) ∷ entered fd 1 0 (fine 1) ∷ l

-- The parameters and the start that are sent for a device.
abbrev pub params_cmd : Answers → ℕ → Config → ℕ → Device → Log → CtrlCmd
params_cmd a size cfg max_sectors d l = record (plain_cmd (id_word d.id)) {
  addr = a.struct_addr l;
  len = u16 (device_params size cfg max_sectors d.has_discarder d.has_zeroer).len;
}

abbrev pub start_cmd : Answers → Device → CtrlCmd
start_cmd a d = record (plain_cmd (id_word d.id)) { payload = a.pid }

module _ (a : Answers) (k : ℕ) where
  -- A command that ends without an error and changes nothing of the device but the control ring,
  -- which is idle again.
  pub record Commanded (op : ℕ) (cmd : CtrlCmd) (d : Device) (l : Log)
      (out : Ret Unit × Device × Log) : Type 0 where
    pub ring : Ring
    pub log : Log
    pub ends : out ≡ (fine tt, on d ring, log)
    pub idle : IsIdle k ring
    pub sent : Sent k (ctrl_sqe op d.ctrl_fd cmd) d.ring l ring log

  send-granted :
      (op : ℕ) (cmd : CtrlCmd) (i : ℕ) (sq : Sq) (d : Device) (l : Log)
      → IsIdle k d.ring
      → IsValid k (write_sqe i (ctrl_sqe op d.ctrl_fd cmd) sq)
      → unread sq ≡ 0
      → pending_sqes k (write_sqe i (ctrl_sqe op d.ctrl_fd cmd) sq) ≡ ctrl_sqe op d.ctrl_fd cmd ∷ []
      → Commanded op cmd d l (send op cmd (some i, sq) (granting a) d l)
  unfolding send ◌>>◌ ◌>>=◌ then_do change on_ring in_device check_result give wait_ctrl look on_fd
      call
  send-granted op cmd i sq d l idle valid read alone =
      let r = write_sqe i (ctrl_sqe op d.ctrl_fd cmd) sq in
      let g = taken (flush_sq r).0 (record d.ring { sq = (flush_sq r).1 }) in
      let l1 : Log = entered idle.fd 1 0 (fine 1) ∷ l in
      let (submits, after, given) =
        submit_one-granted a k (ctrl_sqe op d.ctrl_fd cmd) (record d.ring { sq = r }) l idle.fd
          idle.open_fd valid read alone in
      let answer = a.result l1 idle.fd in
      record {
        ring = g;
        log = reaped idle.fd (fine (pos answer)) ∷ l1;
        ends = rw (submits, idle.open_fd) refl;
        idle = after;
        sent = record {
          fd = idle.fd;
          open_fd = idle.open_fd;
          queued = r;
          valid = valid;
          given = given;
          taken_all = refl;
          result = answer;
          logged = refl;
        };
      }

  pub ctrl_command-granted :
      (op : ℕ) (cmd : CtrlCmd) (d : Device) (l : Log)
      → IsIdle k d.ring
      → Commanded op cmd d l (ctrl_command op cmd (granting a) d l)
  unfolding ctrl_command look
  ctrl_command-granted op cmd d l idle =
      let h =
        get_sqe128-Handed k d.ring.sq idle.valid (omega (arith, idle.quiet.0, pow-two-pos k)) in
      subst
        (λ (o : Option ℕ).
          Commanded op cmd d l (send op cmd (o, (get_sqe128 d.ring.sq).1) (granting a) d l))
        (sym h.given)
        (send-granted op cmd h.slot (get_sqe128 d.ring.sq).1 d l idle (h.valid _)
          (ap₂ (λ (x y : ℕ). sub_u32 y x) h.unmoved.0 h.unmoved.1 ∙ idle.quiet.1)
          (h.appended _
            ∙ ap (λ (es : List Sqe). es ++ ctrl_sqe op d.ctrl_fd cmd ∷ [])
                (none_of_length (pending_sqes k d.ring.sq)
                  (pending-length k d.ring.sq ∙ idle.quiet.0))))

  pub set_params-granted :
      (size : ℕ) (cfg : Config) (max_sectors : ℕ) (d : Device) (l : Log)
      → IsIdle k d.ring
      → Commanded
          (ctrl_op u_cmd_set_params cmd_set_params d)
          (params_cmd a size cfg max_sectors d l)
          d
          l
          (set_params size cfg max_sectors (granting a) d l)
  unfolding set_params look ◌>>=◌ then_do reads
  set_params-granted size cfg max_sectors d l idle = ctrl_command-granted _ _ d l idle

  pub start_dev-granted :
      (d : Device) (l : Log)
      → IsIdle k d.ring
      → Commanded
          (ctrl_op u_cmd_start_dev cmd_start_dev d)
          (start_cmd a d)
          d
          l
          (start_dev (granting a) d l)
  unfolding start_dev look ◌>>=◌ then_do reads
  start_dev-granted d l idle = ctrl_command-granted _ _ d l idle

  pub stop_dev-granted :
      (d : Device) (l : Log)
      → IsIdle k d.ring
      → Commanded
          (ctrl_op u_cmd_stop_dev cmd_stop_dev d)
          (plain_cmd (id_word d.id))
          d
          l
          (stop_dev (granting a) d l)
  unfolding stop_dev look
  stop_dev-granted d l idle = ctrl_command-granted _ _ d l idle

  pub del_dev-granted :
      (d : Device) (l : Log)
      → IsIdle k d.ring
      → Commanded
          (ctrl_op u_cmd_del_dev cmd_del_dev d)
          (plain_cmd (id_word d.id))
          d
          l
          (del_dev (granting a) d l)
  unfolding del_dev look
  del_dev-granted d l idle = ctrl_command-granted _ _ d l idle

  -- The encoded ADD_DEV is enough: the legacy one is not sent.
  pub add_dev-granted :
      (queues depth max_io_buf : ℕ) (d : Device) (l : Log)
      → IsIdle k d.ring
      → (g : Ring) × (l' : Log) × (add_dev queues depth max_io_buf (granting a) d l
          ≡ (fine tt, added true (a.fill_info l' (new_info queues depth max_io_buf)) (on d g), l'))
        × IsIdle k g
        × Sent k (ctrl_sqe u_cmd_add_dev d.ctrl_fd (add_cmd (a.struct_addr l))) d.ring l g l'
  unfolding add_dev ◌>>=◌ then_do reads attempt caught add_legacy change
  add_dev-granted queues depth max_io_buf d l idle =
      let c = ctrl_command-granted u_cmd_add_dev (add_cmd (a.struct_addr l)) d l idle in
      (c.ring, c.log, rw c.ends refl, c.idle, c.sent)

  pub open_char_dev-granted :
      (d : Device) (l : Log)
      → let path = char_dev (id_word d.id) in
        let fd = a.path_fd l path in
        open_char_dev (granting a) d l
        ≡ (fine tt, record d { char_fd = some fd }, opened path (fine fd) ∷ l)
  unfolding open_char_dev look open_loop tried keep give
  open_char_dev-granted d l = refl
