-- ===== src/Worker.antt =====
-- ublk/worker.go: one queue's worker, its descriptors, its buffers and `handleIO`.
pub mod Buffers
pub mod Valid
pub mod Branches
pub mod Handle
pub mod Disk
pub mod Spec
pub mod Refine
use ublk_go.Prelude.{
  ℕ, ◌+◌, ◌*◌, ◌^◌, ◌%◌, Bool, ◌||◌, not, List, [], ◌∷◌, ◌++◌, Option, none, some, ltb, ◌==◌,
  if◌then◌else◌, bit_and, bit_or, length, drop, get_elem?,
}
use ublk_go.Prelude.Int.{ℤ, pos, negsuc, neg, is_pos}
use ublk_go.Prelude.Memory.{stretch, overwrite}
use ublk_go.Go.Words.{int64, to_int32}
use ublk_go.Types.{
  IoDesc, read_io_desc, sizeof_io_desc, op_read, op_write, op_discard, op_write_zeroes,
  io_flag_no_unmap,
}
use ublk_go.Storage.{Backend, Reply, ReadReply, zero_no_unmap}
use ublk_go.Worker.Buffers.{Slice, reslice}

-- The fields of `worker` but for the ring. `descs` is the mapped descriptor area.
pub record Worker : Type 0 where
  pub qid : ℕ  -- uint16
  pub depth : ℕ  -- uint16
  pub buf_size : ℕ
  pub descs : List ℕ
  pub pool : List ℕ
  pub pool_addr : ℕ
  pub bufs : List Slice

abbrev pub eio : ℕ
eio = 5

abbrev pub eopnotsupp : ℕ
eopnotsupp = 95

infixl 5 ◌>>=◌
abbrev ◌>>=◌ {ℓ κ} : {A : Type ℓ} {B : Type κ} → Option A → (A → Option B) → Option B
none >>= f = none
some a >>= f = f a

-- `none` is a run-time panic: the index is out of range.
unfoldable pub get_desc : Worker → ℕ → Option IoDesc
get_desc w tag =
    let off = tag * sizeof_io_desc in
    if ltb off (length w.descs) then some (read_io_desc (drop off w.descs)) else none

-- `w.bufs[tag][:length]`
unfoldable pub buffer : Worker → ℕ → ℕ → Option Slice
buffer w tag length = do s ← get_elem? w.bufs tag; reslice s length

-- The test after each call of the backend: `err != nil || n != length`.
unfoldable pub outcome : {S : Type 0} → ℕ → Reply S → ℤ
outcome length r = if r.failed || not (is_pos r.count length) then neg eio else to_int32 r.count

-- The flags that `case opWriteZeroes` passes on.
unfoldable pub zero_flags : ℕ → ℕ
zero_flags op_flags = if bit_and op_flags io_flag_no_unmap == 0 then 0 else bit_or 0 zero_no_unmap

module _ {S : Type 0} (b : Backend S) where
  -- The worker and the backend's state afterwards, beside the result.
  abbrev pub Handled : Type 0
  Handled = Option (ℤ × Worker × S)

  -- `case opRead`
  unfoldable pub handle_read : Worker → ℕ → ℤ → ℕ → S → Handled
  handle_read w tag offset length s =
      if length == 0
      then some (pos 0, w, s)
      else if ltb w.buf_size length
      then some (neg eio, w, s)
      else do
        buf ← buffer w tag length
        let r = b.read_at length offset s
        some (
          outcome length r.reply,
          record w { pool = overwrite buf.start length r.filled w.pool },
          r.reply.after,
        )

  -- `case opWrite`
  unfoldable pub handle_write : Worker → ℕ → ℤ → ℕ → S → Handled
  handle_write w tag offset length s =
      if length == 0
      then some (pos 0, w, s)
      else if ltb w.buf_size length
      then some (neg eio, w, s)
      else do
        buf ← buffer w tag length
        let r = b.write_at (stretch buf.start length w.pool) offset s
        some (outcome length r, w, r.after)

  -- `case opDiscard`
  unfoldable pub handle_discard : Worker → ℤ → ℕ → S → Handled
  handle_discard w offset length s = elim b.discarder [
    | none ↦ some (neg eopnotsupp, w, s)
    | some discard_at ↦
        if length == 0
        then some (pos 0, w, s)
        else let r = discard_at offset (pos length) s in some (outcome length r, w, r.after)
  ]

  -- `case opWriteZeroes`
  unfoldable pub handle_write_zeroes : Worker → ℤ → ℕ → ℕ → S → Handled
  handle_write_zeroes w offset length op_flags s = elim b.zeroer [
    | none ↦ some (neg eopnotsupp, w, s)
    | some write_zeroes_at ↦
        if length == 0
        then some (pos 0, w, s)
        else let r = write_zeroes_at offset (pos length) (zero_flags op_flags) s in
          some (outcome length r, w, r.after)
  ]

  -- `int64(desc.StartSector) * 512` wraps at 64 bits; `int(desc.NrSectors) * 512` does not.
  unfoldable pub dispatch : Worker → ℕ → IoDesc → S → Handled
  dispatch w tag desc s =
      let op = bit_and desc.op_flags 0xFF in
      let offset = int64 (desc.start_sector * 512) in
      let length = desc.nr_sectors * 512 in
      if op == op_read
      then handle_read w tag offset length s
      else if op == op_write
      then handle_write w tag offset length s
      else if op == op_discard
      then handle_discard w offset length s
      else if op == op_write_zeroes
      then handle_write_zeroes w offset length desc.op_flags s
      else some (neg eopnotsupp, w, s)

  unfoldable pub handle_io : Worker → ℕ → S → Handled
  handle_io w tag s = do desc ← get_desc w tag; dispatch w tag desc s
