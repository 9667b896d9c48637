-- ===== src/Worker/Disk.antt =====
-- The worker over a backend that keeps the contracts of io.ReaderAt and io.WriterAt: the block device
-- that the kernel sees.
use ublk_go.Prelude.{
  ℕ, ◌+◌, ◌*◌, ◌^◌, ◌≤◌, ◌<◌, ◌≡◌, ◌≢◌, ◌∙◌, ◌⊎◌, inl, inr, ℕ_discrete, true, refl, ap, false, List,
  some, arith, length, bit_and,
}
use ublk_go.Prelude.Int.{ℤ, pos, neg, is_pos_self}
use ublk_go.Prelude.Memory.{
  stretch, overwrite, length-overwrite, stretch-overwrite_self, length-stretch,
}
use ublk_go.Go.Words.{int64-pos, to_int32-pos}
use ublk_go.Types.{IoDesc, op_read, op_write}
use ublk_go.Storage.{Backend, Reply}
use ublk_go.Worker.Buffers.{slot_fits}
use ublk_go.Worker.{Worker, eio, outcome, get_desc, dispatch, handle_io, handle_read, handle_write}
use ublk_go.Worker.Valid.{IsValid}
use ublk_go.Worker.Branches.{handle_read_call, handle_write_call}

-- A backend of `size` bytes, by what is documented of `ReadAt` and `WriteAt` within the size: the
-- whole length is transferred, without an error but that a read up to the end may come with io.EOF, a
-- read changes nothing, and a write changes the range that it names.
pub record IsDisk {S : Type 0} (b : Backend S) (size : ℕ) : Type 0 where
  pub content : S → List ℕ
  pub reads :
      (n o : ℕ) (s : S)
      → length (content s) ≡ size
      → o + n ≤ size
      → let r = b.read_at n (pos o) s in
        (r.reply.count ≡ pos n)
        × (o + n < size → r.reply.failed ≡ false)
        × (r.filled ≡ stretch o n (content s))
        × (content r.reply.after ≡ content s)
  pub writes :
      (n o : ℕ) (bs : List ℕ) (s : S)
      → length (content s) ≡ size
      → length bs ≡ n
      → o + n ≤ size
      → let r = b.write_at bs (pos o) s in
        (r.count ≡ pos n) × (r.failed ≡ false) × (content r.after ≡ overwrite o n bs (content s))

-- A backend that returns no io.EOF with a whole read up to its end.
pub record IsEofless {S : Type 0} (b : Backend S) (size : ℕ) (d : IsDisk b size) : Type 0 where
  pub at_end :
      (n o : ℕ) (s : S)
      → length (d.content s) ≡ size
      → o + n ≡ size
      → (b.read_at n (pos o) s).reply.failed ≡ false

-- A read that comes with no io.EOF.
abbrev pub NoEof : {S : Type 0} (b : Backend S) (size : ℕ) → IsDisk b size → ℕ → ℕ → Type 0
NoEof b size d o n = (o + n < size) ⊎ IsEofless b size d

pub reads_clean :
    {S : Type 0} (b : Backend S) (size : ℕ) (d : IsDisk b size) (n o : ℕ) (s : S)
    → length (d.content s) ≡ size
    → o + n ≤ size
    → NoEof b size d o n
    → (b.read_at n (pos o) s).reply.failed ≡ false
reads_clean b size d n o s full inside (inl before) = (d.reads n o s full inside).1 before
reads_clean b size d n o s full inside (inr whole) = elim (ℕ_discrete (o + n) size) [
  | yes end ↦ whole.at_end n o s full end
  | no other ↦ (d.reads n o s full inside).1 (omega (arith, inside, other))
]

-- A request for `n` bytes at byte `o`, in the descriptor of a tag, that the device's size and the
-- buffers allow.
pub record Asks (op : ℕ) (w : Worker) (size tag o n : ℕ) : Type 0 where
  pub desc : IoDesc
  pub read : get_desc w tag ≡ some desc
  pub op_is : bit_and desc.op_flags 0xFF ≡ op
  pub at : o ≡ desc.start_sector * 512
  pub long : n ≡ desc.nr_sectors * 512
  pub some_asked : n ≢ 0
  pub inside : o + n ≤ size
  pub addressed : size < 2 ^ 63
  pub fits : n ≤ w.buf_size
  pub small : w.buf_size < 2 ^ 31
  pub listed : tag < w.depth

pub outcome_full :
    {S : Type 0} (n : ℕ) (r : Reply S)
    → n < 2 ^ 31
    → r.count ≡ pos n
    → r.failed ≡ false
    → outcome n r ≡ pos n
unfolding outcome
outcome_full n r h c f = rw (c, f, is_pos_self n) (to_int32-pos n h)

module _ {S : Type 0} (b : Backend S) (w : Worker) (size tag o n : ℕ) (s : S) where
  pub handle_io_read :
      (a : Asks op_read w size tag o n) → handle_io b w tag s ≡ handle_read b w tag (pos o) n s
  unfolding handle_io dispatch
  handle_io_read a = rw (a.read, a.op_is, ← a.long, ← a.at, int64-pos o (omega arith))

  pub handle_io_write :
      (a : Asks op_write w size tag o n) → handle_io b w tag s ≡ handle_write b w tag (pos o) n s
  unfolding handle_io dispatch
  handle_io_write a = rw (a.read, a.op_is, ← a.long, ← a.at, int64-pos o (omega arith))

  pub pool_holds :
      {op : ℕ} → IsValid w → Asks op w size tag o n → tag * w.buf_size + n ≤ length w.pool
  pool_holds v a = omega (arith, v.pool_all, slot_fits tag w.depth w.buf_size a.listed)

  -- A write request is answered with its length, puts the bytes of the tag's buffer where it says,
  -- and leaves the worker as it was.
  pub handle_io_writes :
      (d : IsDisk b size)
      → length (d.content s) ≡ size
      → IsValid w
      → Asks op_write w size tag o n
      → (s' : S) × (handle_io b w tag s ≡ some (pos n, w, s'))
        × (d.content s' ≡ overwrite o n (stretch (tag * w.buf_size) n w.pool) (d.content s))
  handle_io_writes d full v a =
      let bs = stretch (tag * w.buf_size) n w.pool in
      let long = length-stretch (tag * w.buf_size) n w.pool (pool_holds v a) in
      let (count, ok, now) = d.writes n o bs s full long a.inside in
      (
        (b.write_at bs (pos o) s).after,
        handle_io_write a
            ∙ handle_write_call b w tag (pos o) n s v a.listed a.some_asked a.fits
            ∙ ap (λ (r : ℤ). some (r, w, (b.write_at bs (pos o) s).after))
                (outcome_full n (b.write_at bs (pos o) s) (omega arith) count ok),
        now,
      )

  -- A read request is answered with its length, fills the tag's buffer with the bytes where it says,
  -- and changes none of the content.
  pub handle_io_reads :
      (d : IsDisk b size)
      → length (d.content s) ≡ size
      → IsValid w
      → Asks op_read w size tag o n
      → NoEof b size d o n
      → (w' : Worker) × (s' : S) × (handle_io b w tag s ≡ some (pos n, w', s'))
        × (stretch (tag * w.buf_size) n w'.pool ≡ stretch o n (d.content s))
        × (d.content s' ≡ d.content s)
  handle_io_reads d full v a clean =
      let r = b.read_at n (pos o) s in
      let (count, _, got, same) = d.reads n o s full a.inside in
      let ok = reads_clean b size d n o s full a.inside clean in
      (
        record w { pool = overwrite (tag * w.buf_size) n r.filled w.pool },
        r.reply.after,
        handle_io_read a
            ∙ handle_read_call b w tag (pos o) n s v a.listed a.some_asked a.fits
            ∙ ap
                (λ (x : ℤ). some (
                  x,
                  record w { pool = overwrite (tag * w.buf_size) n r.filled w.pool },
                  r.reply.after,
                ))
                (outcome_full n r.reply (omega arith) count ok),
        stretch-overwrite_self (tag * w.buf_size) n r.filled w.pool
              (ap length got ∙ length-stretch o n (d.content s) (omega (arith, full, a.inside)))
              (pool_holds v a)
            ∙ got,
        same,
      )

-- A whole read that comes with an error, which io.ReaderAt allows for io.EOF at the end, is answered
-- with -EIO.
pub read_at_end :
    {S : Type 0} (b : Backend S) (w : Worker) (size tag o n : ℕ) (s : S)
    → IsValid w
    → Asks op_read w size tag o n
    → (b.read_at n (pos o) s).reply.failed ≡ true
    → (w' : Worker) × (s' : S) × (handle_io b w tag s ≡ some (neg eio, w', s'))
unfolding outcome
read_at_end b w size tag o n s v a ended =
    let r = b.read_at n (pos o) s in
    (
      record w { pool = overwrite (tag * w.buf_size) n r.filled w.pool },
      r.reply.after,
      handle_io_read b w size tag o n s a
          ∙ handle_read_call b w tag (pos o) n s v a.listed a.some_asked a.fits
          ∙ rw ended refl,
    )

-- What was written is read back: a write request, answered, and then a read request for the same
-- bytes, by any worker over the same backend and for any tag, end without a panic and answer with
-- the whole length, and the buffer of the read then holds what the buffer of the write held. The read
-- ends before the end of the backend, or the backend returns no io.EOF with a whole read.
pub handle_io_roundtrip :
    {S : Type 0} (b : Backend S) (w w' : Worker) (size tag tag' o n : ℕ) (s : S) (d : IsDisk b size)
    → length (d.content s) ≡ size
    → IsValid w
    → IsValid w'
    → Asks op_write w size tag o n
    → Asks op_read w' size tag' o n
    → NoEof b size d o n
    → (s₁ s₂ : S) × (w'' : Worker) × (handle_io b w tag s ≡ some (pos n, w, s₁))
      × (handle_io b w' tag' s₁ ≡ some (pos n, w'', s₂))
      × (stretch (tag' * w'.buf_size) n w''.pool ≡ stretch (tag * w.buf_size) n w.pool)
handle_io_roundtrip b w w' size tag tag' o n s d full v v' a a' clean =
    let (s₁, written, now) = handle_io_writes b w size tag o n s d full v a in
    let bs = stretch (tag * w.buf_size) n w.pool in
    let kept : length (d.content s₁) ≡ size =
      ap length now ∙ length-overwrite o n bs (d.content s) ∙ full in
    let (w'', s₂, answered, filled, same) =
      handle_io_reads b w' size tag' o n s₁ d kept v' a' clean in
    (
      s₁,
      s₂,
      w'',
      written,
      answered,
      filled
          ∙ ap (stretch o n) now
          ∙ stretch-overwrite_self o n bs (d.content s)
              (length-stretch (tag * w.buf_size) n w.pool (pool_holds b w size tag o n s v a))
              (omega (arith, full, a.inside)),
    )
