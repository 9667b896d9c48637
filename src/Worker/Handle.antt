-- ===== src/Worker/Handle.antt =====
-- `handleIO` on every descriptor: it does not panic, it reports the whole length or an error, and it
-- touches no other request's buffer.
use ublk_go.Prelude.{
  ℕ, ◌+◌, ◌*◌, ◌≤◌, ◌<◌, ◌≡◌, ◌≢◌, ◌⊎◌, inl, inr, refl, sym, List, Option, none, some, arith, drop,
  ◌==◌, bit_and, dec_lt, ℕ_discrete, Option-cases, if_both,
}
use ublk_go.Prelude.Int.{ℤ, pos, neg, eq_of_is_pos}
use ublk_go.Prelude.Memory.{stretch, overwrite, stretch-overwrite_before, stretch-overwrite_after}
use ublk_go.Go.Words.{int64, to_int32, to_int32-pos}
use ublk_go.Types.{
  IoDesc, op_read, op_write, op_discard, op_write_zeroes, read_io_desc, sizeof_io_desc,
}
use ublk_go.Storage.{Backend, Reply}
use ublk_go.Worker.Buffers.{slot_fits}
use ublk_go.Worker.{
  Worker, eio, eopnotsupp, outcome, handle_read, handle_write, handle_discard, handle_write_zeroes,
  zero_flags, dispatch, handle_io,
}
use ublk_go.Worker.Valid.{IsValid, get_desc-some, overwrite-IsValid}
use ublk_go.Worker.Branches.{
  handle_read_empty, handle_read_large, handle_read_call, handle_write_empty, handle_write_large,
  handle_write_call, handle_discard_absent, handle_discard_empty, handle_discard_call,
  handle_write_zeroes_absent, handle_write_zeroes_empty, handle_write_zeroes_call,
}

-- The two error codes that a request may be answered with.
abbrev pub IsError : ℤ → Type 0
IsError r = (r ≡ neg eio) ⊎ (r ≡ neg eopnotsupp)

-- A request for `n` bytes is answered in full or with an error.
abbrev pub IsAnswer : ℕ → ℤ → Type 0
IsAnswer n r = (r ≡ to_int32 (pos n)) ⊎ IsError r

outcome-IsAnswer : {S : Type 0} (n : ℕ) (r : Reply S) → IsAnswer n (outcome n r)
unfolding outcome
outcome-IsAnswer n r = ground (arith, eq_of_is_pos r.count n)

-- The bytes of the buffer of a tag.
abbrev pub buffer_bytes : Worker → ℕ → List ℕ
buffer_bytes w tag = stretch (tag * w.buf_size) w.buf_size w.pool

-- What one request leaves of the worker, and its answer.
pub record Served {S : Type 0} (w : Worker) (tag n : ℕ) (out : ℤ × Worker × S) : Type 0 where
  pub valid : IsValid out.1
  pub shape : (out.1.depth ≡ w.depth) × (out.1.buf_size ≡ w.buf_size) × (out.1.descs ≡ w.descs)
  pub place : (out.1.qid ≡ w.qid) × (out.1.bufs ≡ w.bufs) × (out.1.pool_addr ≡ w.pool_addr)
  pub answer : IsAnswer n out.0
  pub others : (other : ℕ) → other ≢ tag → buffer_bytes out.1 other ≡ buffer_bytes w other

-- A request that ends without a panic, and what is said of its end.
abbrev pub Ends : {S : Type 0} → (ℤ × Worker × S → Type 0) → Option (ℤ × Worker × S) → Type 0
Ends P none = ⊥
Ends P (some out) = P out

-- The end of such a request.
pub end_of :
    {S : Type 0} {P : ℤ × Worker × S → Type 0} (o : Option (ℤ × Worker × S))
    → Ends P o
    → (out : ℤ × Worker × S) × (o ≡ some out) × P out
end_of none h = absurd h
end_of (some out) h = (out, refl, h)

buffers_apart : (b i j : ℕ) → i ≢ j → (i * b + b ≤ j * b) ⊎ (j * b + b ≤ i * b)
buffers_apart b i j ne = elim (dec_lt i j) [
  | yes lt ↦ inl (slot_fits i j b lt)
  | no ge ↦ inr (slot_fits j i b (omega arith))
]

module _ {S : Type 0} (b : Backend S) (w : Worker) (tag : ℕ) where
  -- Requests that do not change the worker.
  unchanged-Served : (n : ℕ) (r : ℤ) (s : S) → IsValid w → IsAnswer n r → Served w tag n (r, w, s)
  unchanged-Served n r s v a = record {
    valid = v;
    shape = (refl, refl, refl);
    place = (refl, refl, refl);
    answer = a;
    others = λ other ne. refl;
  }

  -- Filling the start of the buffer of the tag.
  filled-Served :
      (n : ℕ) (r : ℤ) (s : S) (bs : List ℕ)
      → IsValid w
      → n ≤ w.buf_size
      → IsAnswer n r
      → Served w tag n (r, record w { pool = overwrite (tag * w.buf_size) n bs w.pool }, s)
  filled-Served n r s bs v fits a = record {
    valid = overwrite-IsValid w (tag * w.buf_size) n bs v;
    shape = (refl, refl, refl);
    place = (refl, refl, refl);
    answer = a;
    others = λ other ne. elim (buffers_apart w.buf_size other tag ne) [
      | inl before ↦
          stretch-overwrite_before (other * w.buf_size) w.buf_size (tag * w.buf_size) n bs w.pool
            before
      | inr behind ↦
          stretch-overwrite_after (other * w.buf_size) w.buf_size (tag * w.buf_size) n bs w.pool
            (omega arith)
    ];
  }

  zero-IsAnswer : (n : ℕ) → n ≡ 0 → IsAnswer n (pos 0)
  zero-IsAnswer n e = inl (rw e (sym (to_int32-pos 0 (omega arith))))

  handle_read-Served :
      (offset : ℤ) (n : ℕ) (s : S)
      → IsValid w
      → tag < w.depth
      → Ends (Served w tag n) (handle_read b w tag offset n s)
  handle_read-Served offset n s v lt = elim (ℕ_discrete n 0) [
    | yes none_asked ↦
        rw (handle_read_empty b w tag offset n s none_asked)
          (unchanged-Served n (pos 0) s v (zero-IsAnswer n none_asked))
    | no some_asked ↦ elim (dec_lt w.buf_size n) [
      | yes large ↦
          rw (handle_read_large b w tag offset n s large)
            (unchanged-Served n (neg eio) s v (inr (inl refl)))
      | no fits ↦
          let r = b.read_at n offset s in
          rw (handle_read_call b w tag offset n s v lt some_asked (omega arith)) (
            filled-Served n (outcome n r.reply) r.reply.after r.filled v (omega arith)
              (outcome-IsAnswer n r.reply))
    ]
  ]

  handle_write-Served :
      (offset : ℤ) (n : ℕ) (s : S)
      → IsValid w
      → tag < w.depth
      → Ends (Served w tag n) (handle_write b w tag offset n s)
  handle_write-Served offset n s v lt = elim (ℕ_discrete n 0) [
    | yes none_asked ↦
        rw (handle_write_empty b w tag offset n s none_asked)
          (unchanged-Served n (pos 0) s v (zero-IsAnswer n none_asked))
    | no some_asked ↦ elim (dec_lt w.buf_size n) [
      | yes large ↦
          rw (handle_write_large b w tag offset n s large)
            (unchanged-Served n (neg eio) s v (inr (inl refl)))
      | no fits ↦
          let r = b.write_at (stretch (tag * w.buf_size) n w.pool) offset s in
          rw (handle_write_call b w tag offset n s v lt some_asked (omega arith))
            (unchanged-Served n (outcome n r) r.after v (outcome-IsAnswer n r))
    ]
  ]

  handle_discard-Served :
      (offset : ℤ) (n : ℕ) (s : S)
      → IsValid w
      → Ends (Served w tag n) (handle_discard b w offset n s)
  handle_discard-Served offset n s v = elim (Option-cases b.discarder) [
    | inl absent ↦
        rw (handle_discard_absent b w offset n s absent)
          (unchanged-Served n (neg eopnotsupp) s v (inr (inr refl)))
    | inr (d, given) ↦ elim (ℕ_discrete n 0) [
      | yes empty ↦
          rw (handle_discard_empty b w offset n s given empty)
            (unchanged-Served n (pos 0) s v (zero-IsAnswer n empty))
      | no some_asked ↦
          let r = d offset (pos n) s in
          rw (handle_discard_call b w offset n s given some_asked)
            (unchanged-Served n (outcome n r) r.after v (outcome-IsAnswer n r))
    ]
  ]

  handle_write_zeroes-Served :
      (offset : ℤ) (n op_flags : ℕ) (s : S)
      → IsValid w
      → Ends (Served w tag n) (handle_write_zeroes b w offset n op_flags s)
  handle_write_zeroes-Served offset n f s v = elim (Option-cases b.zeroer) [
    | inl absent ↦
        rw (handle_write_zeroes_absent b w offset n s f absent)
          (unchanged-Served n (neg eopnotsupp) s v (inr (inr refl)))
    | inr (z, given) ↦ elim (ℕ_discrete n 0) [
      | yes empty ↦
          rw (handle_write_zeroes_empty b w offset n s f given empty)
            (unchanged-Served n (pos 0) s v (zero-IsAnswer n empty))
      | no some_asked ↦
          let r = z offset (pos n) (zero_flags f) s in
          rw (handle_write_zeroes_call b w offset n s f given some_asked)
            (unchanged-Served n (outcome n r) r.after v (outcome-IsAnswer n r))
    ]
  ]

  dispatch-Served :
      (desc : IoDesc) (s : S)
      → IsValid w
      → tag < w.depth
      → Ends (Served w tag (desc.nr_sectors * 512)) (dispatch b w tag desc s)
  unfolding dispatch
  dispatch-Served desc s v lt =
      let op = bit_and desc.op_flags 0xFF in
      let offset = int64 (desc.start_sector * 512) in
      let n = desc.nr_sectors * 512 in
      let good = Ends (Served {S = S} w tag n) in
      if_both good (op == op_read) _ _ (handle_read-Served offset n s v lt) (
        if_both good (op == op_write) _ _ (handle_write-Served offset n s v lt) (
          if_both good (op == op_discard) _ _ (handle_discard-Served offset n s v) (
            if_both good (op == op_write_zeroes) _ _
              (handle_write_zeroes-Served offset n desc.op_flags s v)
              (unchanged-Served n (neg eopnotsupp) s v (inr (inr refl))))))

  -- `handleIO` does not panic for a tag below the queue's depth, whatever the descriptor holds: it
  -- answers with the whole length of the request, as an int32, or with -EIO or -EOPNOTSUPP, keeps
  -- the worker valid, and leaves every other tag's buffer as it was.
  pub handle_io-Served :
      (s : S)
      → IsValid w
      → tag < w.depth
      → let desc = read_io_desc (drop (tag * sizeof_io_desc) w.descs) in
        Ends (Served w tag (desc.nr_sectors * 512)) (handle_io b w tag s)
  unfolding handle_io
  handle_io-Served s v lt =
      let desc = read_io_desc (drop (tag * sizeof_io_desc) w.descs) in
      rw (get_desc-some w tag v lt) (dispatch-Served desc s v lt)
