-- ===== src/Tests/Lives.antt =====
-- A device that is made and closed, on a kernel that grants every call.
use ublk_go.Prelude.{
  ℕ, zero, suc, ◌+◌, ◌^◌, ◌≡◌, refl, true, false, List, some, none, [], ◌∷◌, replicate, length, ap,
  ◌∙◌, inl, ◌-◌, ◌*◌, arith, length-replicate,
}
use ublk_go.Prelude.Int.{pos}
use ublk_go.Uring.Sq.{Sq}
use ublk_go.System.{Ret, fine, fail, Log, Kernel}
use ublk_go.System.Kept.{descriptor, Kept}
use ublk_go.Device.Life.{Made, nil_backend, bad_config, failed, made, Handle, new, close}
use ublk_go.Device.Life.Balance.{own_result, AfterClose, new-Kept, close-new_balance}
use ublk_go.Uring.Ring.{Ring, setup}
use ublk_go.Uring.Ring.Balance.{own_made, setup-Kept}
use ublk_go.Device.{Device}
use ublk_go.Device.Control.Balance.{own_device}
use ublk_go.Device.Life.{open_device, shutdown}
use ublk_go.Device.Life.Shutdown.{shutdown-Kept}
use ublk_go.System.{entered}
use ublk_go.System.Granted.{Answers, granting, newest, HasRings}
use ublk_go.Config.{default_config, apply_options, validate}
use ublk_go.Uring.Entry.{zero_sqe, zero_cqe}
use ublk_go.Uring.Sq.{flush_sq}
use ublk_go.Uring.Sq.Valid.{queued_sqes}
use ublk_go.Uring.Ring.{new_ring, submit_and_wait, taken, enter_getevents}
use ublk_go.Serve.{fetch_loop}
use ublk_go.Serve.Command.{fetch_sqes}
use ublk_go.Device.Life.Commands.{CameFrom}
use ublk_go.Device.Life.Granted.{IsUp, new_grants}
use ublk_go.Device.Life.Refused.{
  pointer_kind, other_kind, Value, is_nil_backend, IsRefusal, new_refuses,
}
use ublk_go.Device.Life.Fetching.{init_fetches}
use ublk_go.Device.Life.Order.{InOrder, shutdown-InOrder}
use ublk_go.Device.Life.Begun.{Begun, first_serving, new_begins}
use ublk_go.Uring.Cq.{Cq}
use ublk_go.Uring.Cq.Queue as Comp
use ublk_go.Tests.Requests.{worker, memory}
use ublk_go.Tests.Serving.{worker-HasBuffers}
use ublk_go.Tests.Rings.{fresh}

-- Each descriptor and each mapping is a new number, and a ring is as large as it was asked for.
abbrev answers : Answers
answers = record {
  path_fd = λ l p. length l;
  ring_fd = λ l n f. length l;
  ring_params =
      λ l. record { sq_entries = newest l; cq_entries = 2 * newest l; sq_array = 64; cq_cqes = 64 };
  queue_memory = λ l. record {
    head = 0;
    tail = 0;
    mask = newest l - 1;
    array = replicate (newest l) 0;
    slots = replicate (newest l) (zero_sqe 0);
    local_head = 0;
    local_tail = 0;
    entries = 0;
  };
  event_fd = λ l. length l;
  epoll_fd = λ l. length l;
  address = λ l fd o n. length l;
  result = λ l fd. 0;
  fill_info = λ l info. record info { dev_id = 0 };
  unmap_error = λ l a. some 22;
  close_error = λ l fd. some 5;
  struct_addr = λ l. 4096;
  pid = 42;
}

abbrev all_granted : Kernel
all_granted = granting answers

answers-HasRings : HasRings answers
answers-HasRings = record {
  sized = λ l k small asked. asked;
  unused = λ l k small asked. record {
    head_start = refl;
    tail_start = refl;
    mask_pow = ap (λ (n : ℕ). n - 1) asked;
    array_all = length-replicate (newest l) 0 ∙ asked;
    slots_all = length-replicate (newest l) (zero_sqe 0) ∙ asked;
  };
}

-- The heap, but it maps no descriptor area.
abbrev refusing : Kernel
refusing = record all_granted { mmap = λ l fd o n. fail 12 }

-- Where the memory of the buffers is allocated.
abbrev heap : ℕ
heap = 4097

-- A device with a worker.
abbrev ring : Ring
ring = record {
  fd = some 3;
  cancel_fd = some 4;
  epoll_fd = some 5;
  map_sq = some 1;
  map_cq = some 2;
  map_sqes = some 3;
  params = record { sq_entries = 4; cq_entries = 8; sq_array = 64; cq_cqes = 64 };
  sqe_size = 128;
  sq = fresh;
}

abbrev pub device : Device
device = record (open_device true false 6 ring) {
  id = some 0;
  char_fd = some 7;
  use_ioctl = true;
  queue = some (record {
    ring = record ring { fd = some 8; cancel_fd = none; epoll_fd = none };
    descs = some 9;
  });
}

abbrev opened_device : Made × Log
opened_device = new heap false true false (2 ^ 20) [] all_granted []

new-Kept_example :
    Kept (descriptor 3) 0 [] (own_result (descriptor 3) opened_device.0) opened_device.1
new-Kept_example = new-Kept heap false true false (2 ^ 20) [] all_granted [] (descriptor 3)

setup-Kept_example :
    Kept
      (descriptor 1)
      0
      []
      (own_made (descriptor 1) (setup all_granted 4 0 64 []).0)
      (setup all_granted 4 0 64 []).1
setup-Kept_example = setup-Kept all_granted 4 0 64 [] (descriptor 1)

shutdown-Kept_example :
    Kept (descriptor 3) (own_device (descriptor 3) device) [] 0 (shutdown all_granted device []).1
shutdown-Kept_example = shutdown-Kept all_granted device [] (descriptor 3)

close-new_balance_example : AfterClose all_granted [] opened_device
close-new_balance_example = close-new_balance heap false true false (2 ^ 20) [] all_granted []

shutdown-InOrder_example : InOrder device [] (shutdown all_granted device []).1
shutdown-InOrder_example = shutdown-InOrder all_granted device []

accepted : validate default_config (2 ^ 20) ≡ none
unfolding validate ublk_go.Go.Bits.ones_count ublk_go.Go.Bits.ones_count32
accepted = refl

no_options : apply_options [] default_config ≡ default_config
unfolding apply_options
no_options = refl

new_grants_example :
    (h : Handle) × (l : Log) × (new heap true false false (2 ^ 20) [] all_granted [] ≡ (made h, l))
    × IsUp heap (apply_options [] default_config).queue_depth h.device
    × CameFrom answers heap (apply_options [] default_config) (2 ^ 20) [] h.device l
    × ((close all_granted h l).0 ≡ fine tt)
new_grants_example =
    new_grants answers answers-HasRings heap true false (2 ^ 20) [] [] (rw no_options accepted)

abbrev nil_pointer : Value
nil_pointer = record { kind = pointer_kind; nil = true }

pointer-ne-other : ¬ (pointer_kind ≡ other_kind)
pointer-ne-other eq = absurd (cc eq)

new_refuses_example :
    (m : Made) × (new heap false false (is_nil_backend (some nil_pointer)) 4096 [] all_granted []
      ≡ (m, []))
    × IsRefusal m
new_refuses_example =
    new_refuses heap false false (some nil_pointer) 4096 [] all_granted []
      (rw no_options (omega arith)) (inl (pointer-ne-other, refl))

init_fetches_example :
    (g : Ring) × (l : Log) × (sq : Sq) × (k : ℕ) × (fd : ℕ) × (new_ring all_granted 2 []
      ≡ (fine g, l))
    × (fetch_loop 2 (pos 5) worker 0 g.sq ≡ some sq)
    × (queued_sqes k (flush_sq sq).1 ≡ fetch_sqes (pos 5) worker 0 2)
    × (submit_and_wait all_granted (record g { sq = sq }) l ≡ (
      fine 2,
      taken 2 (record g { sq = (flush_sq sq).1 }),
      entered fd 2 enter_getevents (fine 2) ∷ l,
    ))
init_fetches_example =
    init_fetches answers answers-HasRings worker (pos 5) [] worker-HasBuffers (omega arith)
      (omega arith)

refused : (new heap false true false (2 ^ 20) [] refusing []).0 ≡ failed 12
unfolding ublk_go.System.then_do ublk_go.System.◌>>=◌ ublk_go.System.◌>>◌ ublk_go.System.give
    ublk_go.System.refuse ublk_go.System.caught ublk_go.System.attempt ublk_go.System.change
    ublk_go.System.look ublk_go.System.keep ublk_go.System.call ublk_go.Uring.Ring.on_fd
    ublk_go.Uring.Ring.mmap_ring ublk_go.Uring.Ring.sq_ring_size ublk_go.Uring.Ring.cq_ring_size
    ublk_go.Uring.Ring.sqes_size ublk_go.Uring.Ring.point_queue ublk_go.Uring.Ring.mmap_rings
    ublk_go.Uring.Ring.epoll_add_to ublk_go.Uring.Ring.setup_cancel ublk_go.Uring.Ring.unmap_one
    ublk_go.Uring.Ring.close_one ublk_go.Uring.Ring.close_ring ublk_go.Uring.Ring.close_on_error
    ublk_go.Uring.Ring.open_ring ublk_go.Uring.Ring.setup ublk_go.Uring.Ring.new_sqe128
    ublk_go.Uring.Ring.new_ring ublk_go.Uring.Ring.enter_ring ublk_go.Uring.Ring.submit
    ublk_go.Uring.Ring.submit_and_wait ublk_go.Uring.Ring.wake_ring ublk_go.Uring.Round.round_up2
    ublk_go.Uring.Sq.take_slot ublk_go.Uring.Sq.next_sqe ublk_go.Uring.Sq.zero_slot
    ublk_go.Uring.Sq.get_sqe128 ublk_go.Uring.Sq.flush_loop ublk_go.Uring.Sq.flush_sq
    ublk_go.Device.Control.reads ublk_go.Device.Control.in_device ublk_go.Device.Control.on_ring
    ublk_go.Device.Control.ctrl_sqe ublk_go.Device.Control.check_result
    ublk_go.Device.Control.wait_ctrl ublk_go.Device.Control.send ublk_go.Device.Control.ctrl_command
    ublk_go.Device.Control.ctrl_op ublk_go.Device.Control.new_info ublk_go.Device.Control.add_legacy
    ublk_go.Device.Control.add_dev ublk_go.Device.Control.tried ublk_go.Device.Control.open_loop
    ublk_go.Device.Control.open_char_dev ublk_go.Device.Control.set_params
    ublk_go.Device.Control.start_dev ublk_go.Device.Control.stop_dev ublk_go.Device.Control.del_dev
    ublk_go.Device.Life.cleanup ublk_go.Device.Life.mmap_descs ublk_go.Device.Life.started
    ublk_go.Device.Life.descs_ready ublk_go.Device.Life.ring_ready ublk_go.Device.Life.start_queue
    ublk_go.Device.Life.buf_size ublk_go.Device.Life.bring_up ublk_go.Device.Life.cancel_workers
    ublk_go.Device.Life.cleanup_workers ublk_go.Device.Life.del_added ublk_go.Device.Life.shutdown
    ublk_go.Device.Life.close ublk_go.Device.Life.or_shutdown ublk_go.Device.Life.open_device
    ublk_go.Device.Life.ctrl_ready ublk_go.Device.Life.ctrl_opened ublk_go.Device.Life.if_valid
    ublk_go.Device.Life.new ublk_go.Device.Params.device_params ublk_go.Config.apply_options
    ublk_go.Config.validate ublk_go.Go.Bits.ones_count ublk_go.Go.Bits.trailing_zeros
    ublk_go.Go.Bits.len ublk_go.Go.Bits.ones_count32 ublk_go.Go.Bits.trailing_zeros32
    ublk_go.Go.Bits.len32 ublk_go.Types.ctrl_cmd_bytes ublk_go.Types.io_cmd_bytes
    ublk_go.Types.io_desc_bytes ublk_go.Types.read_io_desc ublk_go.Types.Bytes.le_bytes
    ublk_go.Types.Bytes.from_le ublk_go.Prelude.Memory.stretch ublk_go.Prelude.Memory.overwrite
    ublk_go.Go.Words.int32 ublk_go.Go.Words.int64 ublk_go.Go.Words.word32 ublk_go.Go.Words.to_int32
refused = refl

abbrev blank : List ℕ
blank = replicate (128 * 24) 0

-- The completion queue of a new ring.
abbrev no_completions : Cq
no_completions = record {
  head = 0;
  tail = 0;
  mask = 255;
  cqes = replicate 256 zero_cqe;
  cancel_fd = some 9;
  cancelled = false;
  signals = 0;
}

no_completions-IsValid : Comp.IsValid 8 no_completions
no_completions-IsValid = record {
  small = omega arith;
  mask_pow = refl;
  cqes_all = refl;
  head_word = omega arith;
  tail_word = omega arith;
  fits = omega arith;
}

abbrev default_depth : ℕ
default_depth = (apply_options [] default_config).queue_depth

new_begins_example :
    (h : Handle) × (l : Log) × (new heap true false false (2 ^ 20) [] all_granted [] ≡ (made h, l))
    × CameFrom answers heap (apply_options [] default_config) (2 ^ 20) [] h.device l
    × (up : IsUp heap default_depth h.device) × Begun memory 8 default_depth (
        first_serving heap default_depth up.buf_size up.char_fd up.worker blank no_completions
          (replicate 1024 0))
new_begins_example =
    new_begins answers answers-HasRings memory heap 8 true false (2 ^ 20) [] [] blank no_completions
      (replicate 1024 0) (rw no_options accepted) (rw no_options refl) no_completions-IsValid refl
      (rw no_options (omega arith))
