-- ===== src/Worker/Branches.antt =====
-- What each operation of `handleIO` does on each of its branches.
use ublk_go.Prelude.{ℕ, ◌*◌, ◌≤◌, ◌<◌, ◌≡◌, ◌≢◌, none, some, arith}
use ublk_go.Prelude.Int.{ℤ, pos, neg}
use ublk_go.Prelude.Memory.{stretch, overwrite}
use ublk_go.Storage.{Backend, Reply}
use ublk_go.Worker.{
  Worker, eio, eopnotsupp, outcome, handle_read, handle_write, handle_discard, handle_write_zeroes,
  zero_flags,
}
use ublk_go.Worker.Valid.{IsValid, buffer-some}

-- The branches of `case opRead` and `case opWrite`.
module _ {S : Type 0} (b : Backend S) (w : Worker) (tag : ℕ) (offset : ℤ) (n : ℕ) (s : S) where
  pub handle_read_empty : n ≡ 0 → handle_read b w tag offset n s ≡ some (pos 0, w, s)
  unfolding handle_read
  handle_read_empty e = ground arith

  pub handle_read_large : w.buf_size < n → handle_read b w tag offset n s ≡ some (neg eio, w, s)
  unfolding handle_read
  handle_read_large h = ground arith

  pub handle_read_call :
      IsValid w
      → tag < w.depth
      → n ≢ 0
      → n ≤ w.buf_size
      → let r = b.read_at n offset s in
        handle_read b w tag offset n s
        ≡ some (
          outcome n r.reply,
          record w { pool = overwrite (tag * w.buf_size) n r.filled w.pool },
          r.reply.after,
        )
  unfolding handle_read
  handle_read_call v lt ne fits =
      let (buf, e, start) = buffer-some w tag n v lt fits in rw (e, ← start) (ground arith)

  pub handle_write_empty : n ≡ 0 → handle_write b w tag offset n s ≡ some (pos 0, w, s)
  unfolding handle_write
  handle_write_empty e = ground arith

  pub handle_write_large : w.buf_size < n → handle_write b w tag offset n s ≡ some (neg eio, w, s)
  unfolding handle_write
  handle_write_large h = ground arith

  pub handle_write_call :
      IsValid w
      → tag < w.depth
      → n ≢ 0
      → n ≤ w.buf_size
      → let r = b.write_at (stretch (tag * w.buf_size) n w.pool) offset s in
        handle_write b w tag offset n s ≡ some (outcome n r, w, r.after)
  unfolding handle_write
  handle_write_call v lt ne fits =
      let (buf, e, start) = buffer-some w tag n v lt fits in rw (e, ← start) (ground arith)

-- The branches of `case opDiscard` and `case opWriteZeroes`.
module _ {S : Type 0} (b : Backend S) (w : Worker) (offset : ℤ) (n : ℕ) (s : S) where
  pub handle_discard_absent :
      b.discarder ≡ none → handle_discard b w offset n s ≡ some (neg eopnotsupp, w, s)
  unfolding handle_discard
  handle_discard_absent e = rw e

  pub handle_discard_empty :
      {d : ℤ → ℤ → S → Reply S}
      → b.discarder ≡ some d
      → n ≡ 0
      → handle_discard b w offset n s ≡ some (pos 0, w, s)
  unfolding handle_discard
  handle_discard_empty e z = rw e (ground arith)

  pub handle_discard_call :
      {d : ℤ → ℤ → S → Reply S}
      → b.discarder ≡ some d
      → n ≢ 0
      → let r = d offset (pos n) s in handle_discard b w offset n s ≡ some (outcome n r, w, r.after)
  unfolding handle_discard
  handle_discard_call e ne = rw e (ground arith)

  pub handle_write_zeroes_absent :
      (f : ℕ) → b.zeroer ≡ none → handle_write_zeroes b w offset n f s ≡ some (neg eopnotsupp, w, s)
  unfolding handle_write_zeroes
  handle_write_zeroes_absent f e = rw e

  pub handle_write_zeroes_empty :
      (f : ℕ) {z : ℤ → ℤ → ℕ → S → Reply S}
      → b.zeroer ≡ some z
      → n ≡ 0
      → handle_write_zeroes b w offset n f s ≡ some (pos 0, w, s)
  unfolding handle_write_zeroes
  handle_write_zeroes_empty f e empty = rw e (ground arith)

  pub handle_write_zeroes_call :
      (f : ℕ) {z : ℤ → ℤ → ℕ → S → Reply S}
      → b.zeroer ≡ some z
      → n ≢ 0
      → let r = z offset (pos n) (zero_flags f) s in
        handle_write_zeroes b w offset n f s ≡ some (outcome n r, w, r.after)
  unfolding handle_write_zeroes
  handle_write_zeroes_call f e ne = rw e (ground arith)
