-- ===== src/Worker/Refine.antt =====
-- `handleIO` over a backend that keeps its contracts is one step of the device that Worker/Spec
-- describes.
use ublk_go.Prelude.{
  ℕ, ◌+◌, ◌*◌, ◌^◌, ◌≤◌, ◌<◌, ◌≡◌, ◌≢◌, ◌⊎◌, ◌∙◌, refl, sym, ap, inl, inr, false, List, Option,
  some, arith, ◌==◌, drop, length, dec_lt, ℕ_discrete, Option-cases, Bool-cases,
}
use ublk_go.Prelude.Int.{ℤ, pos, neg}
use ublk_go.Prelude.Memory.{stretch, stretch-overwrite_self, length-stretch}
use ublk_go.Go.Words.{int64, int64-pos}
use ublk_go.Types.{
  IoDesc, op_read, op_write, op_discard, op_write_zeroes, read_io_desc, sizeof_io_desc,
}
use ublk_go.Storage.{Backend}
use ublk_go.Worker.Buffers.{slot_fits}
use ublk_go.Worker.{
  Worker, eio, eopnotsupp, handle_read, handle_write, handle_write_zeroes, zero_flags, dispatch,
  handle_io,
}
use ublk_go.Worker.Valid.{IsValid, get_desc-some}
use ublk_go.Worker.Branches.{
  handle_read_empty, handle_read_large, handle_read_call, handle_write_empty, handle_write_large,
  handle_write_call, handle_discard_absent, handle_write_zeroes_absent, handle_write_zeroes_empty,
  handle_write_zeroes_call,
}
use ublk_go.Worker.Handle.{Ends}
use ublk_go.Worker.Disk.{IsDisk, NoEof, reads_clean, outcome_full}
use ublk_go.Worker.Spec.{
  op_of, start_of, long_of, Outcome, refused, buffered, read_outcome, write_outcome, zero_outcome,
  disk_step, is_some, IsZeroing, Allowed,
}

-- The first bytes of the buffer of a tag.
abbrev pub first_bytes : Worker → ℕ → ℕ → List ℕ
first_bytes w tag n = stretch (tag * w.buf_size) n w.pool

module _ (cap n : ℕ) (held m : List ℕ) (done : Outcome) where
  buffered_empty :
      n ≡ 0 → buffered cap n held m done ≡ record { answer = pos 0; held = held; bytes = m }
  buffered_empty none_asked = ground arith

  buffered_large : n ≢ 0 → cap < n → buffered cap n held m done ≡ refused eio held m
  buffered_large some_asked large = ground arith

  buffered_fits : n ≢ 0 → n ≤ cap → buffered cap n held m done ≡ done
  buffered_fits some_asked fits = ground arith

module _ {S : Type 0} (b : Backend S) (size : ℕ) (d : IsDisk b size) (w : Worker) (tag : ℕ) where
  -- The request for `n` bytes ended as it is promised.
  pub record Keeps (n : ℕ) (o : Outcome) (out : ℤ × Worker × S) : Type 0 where
    pub answer : out.0 ≡ o.answer
    pub held : stretch (tag * w.buf_size) n out.1.pool ≡ o.held
    pub bytes : d.content out.2 ≡ o.bytes

  pool_part :
      (n : ℕ) → IsValid w → tag < w.depth → n ≤ w.buf_size → tag * w.buf_size + n ≤ length w.pool
  pool_part n v lt fits = omega (arith, v.pool_all, slot_fits tag w.depth w.buf_size lt)

  module _ (s : S) (full : length (d.content s) ≡ size) (v : IsValid w) (lt : tag < w.depth) where
    -- Nothing is asked for, or the request is refused.
    kept_same :
        (n : ℕ) (r : ℤ)
        → Keeps n (record { answer = r; held = first_bytes w tag n; bytes = d.content s }) (r, w, s)
    kept_same n r = record { answer = refl; held = refl; bytes = refl }

    in_range : (o n : ℕ) → n ≢ 0 → (n ≡ 0) ⊎ (o + n ≤ size) → o + n ≤ size
    in_range o n some_asked (inl e) = absurd (some_asked e)
    in_range o n some_asked (inr h) = h

    -- The two branches that do not call the backend.
    uncalled :
        (n : ℕ) (done : Outcome) (o : Option (ℤ × Worker × S))
        → (n ≡ 0 → o ≡ some (pos 0, w, s))
        → (w.buf_size < n → o ≡ some (neg eio, w, s))
        → (n ≢ 0 → n ≤ w.buf_size → Ends (Keeps n done) o)
        → Ends (Keeps n (buffered w.buf_size n (first_bytes w tag n) (d.content s) done)) o
    uncalled n done o empty large call = elim (ℕ_discrete n 0) [
      | yes none_asked ↦
          rw
            (
              empty none_asked,
              buffered_empty w.buf_size n (first_bytes w tag n) (d.content s) done none_asked,
            )
            (kept_same n (pos 0))
      | no some_asked ↦ elim (dec_lt w.buf_size n) [
        | yes more ↦
            rw
              (
                large more,
                buffered_large w.buf_size n (first_bytes w tag n) (d.content s) done some_asked
                    more,
              )
              (kept_same n (neg eio))
        | no fits ↦
            rw
              (buffered_fits w.buf_size n (first_bytes w tag n) (d.content s) done some_asked
                (omega arith))
              (call some_asked (omega arith))
      ]
    ]

    read-Keeps :
        (o n : ℕ)
        → n < 2 ^ 31
        → (n ≡ 0) ⊎ (o + n ≤ size)
        → NoEof b size d o n
        → Ends
            (Keeps n (read_outcome w.buf_size o n (first_bytes w tag n) (d.content s)))
            (handle_read b w tag (pos o) n s)
    read-Keeps o n small inside clean =
        uncalled n _ _ (handle_read_empty b w tag (pos o) n s)
          (handle_read_large b w tag (pos o) n s)
          (λ some_asked fits.
            let r = b.read_at n (pos o) s in
            let (count, _, got, same) = d.reads n o s full (in_range o n some_asked inside) in
            let ok = reads_clean b size d n o s full (in_range o n some_asked inside) clean in
            rw (handle_read_call b w tag (pos o) n s v lt some_asked fits) (record {
              answer = outcome_full n r.reply small count ok;
              held =
                  stretch-overwrite_self (tag * w.buf_size) n r.filled w.pool
                    (ap length got
                      ∙ length-stretch o n (d.content s)
                          (omega (arith, full, in_range o n some_asked inside)))
                    (pool_part n v lt fits)
                  ∙ got;
              bytes = same;
            }))

    write-Keeps :
        (o n : ℕ)
        → n < 2 ^ 31
        → (n ≡ 0) ⊎ (o + n ≤ size)
        → Ends
            (Keeps n (write_outcome w.buf_size o n (first_bytes w tag n) (d.content s)))
            (handle_write b w tag (pos o) n s)
    write-Keeps o n small inside =
        uncalled n _ _ (handle_write_empty b w tag (pos o) n s)
          (handle_write_large b w tag (pos o) n s)
          (λ some_asked fits.
            let r = b.write_at (first_bytes w tag n) (pos o) s in
            let (count, ok, now) =
              d.writes n o (first_bytes w tag n) s full
                (length-stretch (tag * w.buf_size) n w.pool (pool_part n v lt fits))
                (in_range o n some_asked inside) in
            rw (handle_write_call b w tag (pos o) n s v lt some_asked fits)
              (record { answer = outcome_full n r small count ok; held = refl; bytes = now }))

    zeroes-Keeps :
        IsZeroing b size d
        → (o n f : ℕ) → n < 2 ^ 31
        → (n ≡ 0) ⊎ (o + n ≤ size)
        → Ends
            (Keeps n (zero_outcome (is_some b.zeroer) o n (first_bytes w tag n) (d.content s)))
            (handle_write_zeroes b w (pos o) n f s)
    zeroes-Keeps zeroing o n f small inside = elim (Option-cases b.zeroer) [
      | inl absent ↦
          rw (handle_write_zeroes_absent b w (pos o) n s f absent, absent)
            (kept_same n (neg eopnotsupp))
      | inr (z, given) ↦ elim (ℕ_discrete n 0) [
        | yes empty ↦
            rw (handle_write_zeroes_empty b w (pos o) n s f given empty, given)
              (record { answer = sym (ap pos empty); held = refl; bytes = ground arith })
        | no some_asked ↦
            let r = z (pos o) (pos n) (zero_flags f) s in
            let (count, ok, now) =
              zeroing.zeroes z n o (zero_flags f) s given full (in_range o n some_asked inside) in
            rw (handle_write_zeroes_call b w (pos o) n s f given some_asked, given)
              (record {
                answer = outcome_full n r small count ok;
                held = refl;
                bytes = now ∙ ground arith;
              })
      ]
    ]

    dispatch-Keeps :
        IsZeroing b size d
        → (desc : IoDesc) → Allowed b size d desc
        → let n = long_of desc in
          Ends
            (Keeps n
              (disk_step w.buf_size (is_some b.zeroer) desc (first_bytes w tag n) (d.content s)))
            (dispatch b w tag desc s)
    unfolding dispatch
    dispatch-Keeps zeroing desc ok =
        let op = op_of desc in
        let o = start_of desc in
        let n = long_of desc in
        let here : int64 o ≡ pos o = int64-pos o ok.addressed in
        elim (Bool-cases (op == op_read)) [
          | inl reads ↦ elim ok.clean [
            | inl never ↦ absurd (never (ground arith))
            | inr clean ↦ rw (reads, here) (read-Keeps o n ok.small ok.inside clean)
          ]
          | inr no_read ↦ elim (Bool-cases (op == op_write)) [
            | inl writes ↦ rw (no_read, writes, here) (write-Keeps o n ok.small ok.inside)
            | inr no_write ↦ elim (Bool-cases (op == op_discard)) [
              | inl discards ↦
                  let other : (op == op_write_zeroes) ≡ false = ground arith in
                  elim ok.undiscarded [
                    | inl never ↦ absurd (never (ground arith))
                    | inr absent ↦
                        rw
                          (
                            no_read,
                            no_write,
                            discards,
                            other,
                            handle_discard_absent b w (int64 o) n s absent,
                          )
                          (kept_same n (neg eopnotsupp))
                  ]
              | inr no_discard ↦ elim (Bool-cases (op == op_write_zeroes)) [
                | inl zeroes ↦
                    rw (no_read, no_write, no_discard, zeroes, here)
                      (zeroes-Keeps zeroing o n desc.op_flags ok.small ok.inside)
                | inr unknown ↦
                    rw (no_read, no_write, no_discard, unknown) (kept_same n (neg eopnotsupp))
              ]
            ]
          ]
        ]

    -- Over a backend that keeps its contracts, a request that the device allows ends without a panic,
    -- with the answer, the buffer and the bytes that `disk_step` gives.
    pub handle_io-Keeps :
        IsZeroing b size d
        → let desc = read_io_desc (drop (tag * sizeof_io_desc) w.descs) in
          let n = long_of desc in
          Allowed b size d desc
          → Ends
              (Keeps n
                (disk_step w.buf_size (is_some b.zeroer) desc (first_bytes w tag n) (d.content s)))
              (handle_io b w tag s)
    unfolding handle_io
    handle_io-Keeps zeroing ok = rw (get_desc-some w tag v lt) (dispatch-Keeps zeroing _ ok)
