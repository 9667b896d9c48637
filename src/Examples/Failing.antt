-- ===== src/Examples/Failing.antt =====
-- What the worker makes of the faults of example/fault/main.go.
use ublk_go.Prelude.{
  ℕ, zero, suc, ◌+◌, ◌*◌, ◌<◌, ◌≡◌, refl, ap, ap₂, ◌∙◌, true, List, [], ◌∷◌, some, arith,
}
use ublk_go.Prelude.Int.{ℤ, pos, neg}
use ublk_go.Prelude.Memory.{stretch, overwrite}
use ublk_go.Types.{op_read, op_write}
use ublk_go.Storage.{Backend, Reply}
use ublk_go.Worker.{Worker, eio, outcome, handle_io}
use ublk_go.Worker.Valid.{IsValid}
use ublk_go.Worker.Branches.{handle_read_call, handle_write_call}
use ublk_go.Worker.Disk.{Asks, handle_io_read, handle_io_write}
use ublk_go.Examples.Contract.{Agrees}
use ublk_go.Examples.Runs.{Transfer, pread, pwrite}
use ublk_go.Examples.Fault.{FaultyBackend, read_at, write_at, backend}

overwrite_nothing : (start n : ℕ) (m : List ℕ) → overwrite start n [] m ≡ m
unfolding overwrite
overwrite_nothing start n [] = refl
overwrite_nothing zero zero (x ∷ m) = refl
overwrite_nothing zero (suc n) (x ∷ m) = refl
overwrite_nothing (suc start) n (x ∷ m) = ap (λ (t : List ℕ). x ∷ t) (overwrite_nothing start n m)

outcome_failed : {S : Type 0} (n : ℕ) (r : Reply S) → r.failed ≡ true → outcome n r ≡ neg eio
unfolding outcome
outcome_failed n r failed = rw failed refl

-- The state after a call that failed on purpose.
abbrev failed_read : FaultyBackend → FaultyBackend
failed_read s = record s { reads = s.reads + 1; draws = s.draws + 1; read_errs = s.read_errs + 1 }

abbrev failed_write : FaultyBackend → FaultyBackend
failed_write s = record s {
  writes = s.writes + 1;
  draws = s.draws + 1;
  write_errs = s.write_errs + 1;
}

abbrev pub failed_call : Transfer → FaultyBackend → FaultyBackend
failed_call pread s = failed_read s
failed_call pwrite s = failed_write s

-- The rate of faults of a call, in parts of a million, and the operation that makes it.
abbrev pub fail_rate : Transfer → FaultyBackend → ℕ
fail_rate pread s = s.read_fail
fail_rate pwrite s = s.write_fail

abbrev pub op_of : Transfer → ℕ
op_of pread = op_read
op_of pwrite = op_write

module _ (rand : ℕ → ℕ) (s : FaultyBackend) where
  read_fails :
      (n : ℕ) (off : ℤ)
      → rand s.draws < s.read_fail
      → read_at rand n off s
        ≡ some (record {
          reply = record { count = pos 0; failed = true; after = failed_read s };
          filled = [];
        })
  unfolding read_at
  read_fails n off low = ground arith

  write_fails :
      (p : List ℕ) (off : ℤ)
      → rand s.draws < s.write_fail
      → write_at rand p off s
        ≡ some (record { count = pos 0; failed = true; after = failed_write s })
  unfolding write_at
  write_fails p off low = ground arith

  module _ (b : Backend FaultyBackend) (same : Agrees (backend rand) b) (w : Worker)
      (size tag o n : ℕ) (v : IsValid w) where
    total_write_failure :
        ((i : ℕ) → rand i < 1000000)
        → s.write_fail ≡ 1000000
        → Asks op_write w size tag o n
        → handle_io b w tag s ≡ some (neg eio, w, failed_write s)
    total_write_failure drawn full asks =
        let bs = stretch (tag * w.buf_size) n w.pool in
        let fails =
          same.write_same bs (pos o) s _
            (write_fails bs (pos o) (omega (arith, full, drawn s.draws))) in
        handle_io_write b w size tag o n s asks
        ∙ handle_write_call b w tag (pos o) n s v asks.listed asks.some_asked asks.fits
        ∙ rw fails (ap (λ (r : ℤ). some (r, w, failed_write s)) (outcome_failed n _ refl))

    total_read_failure :
        ((i : ℕ) → rand i < 1000000)
        → s.read_fail ≡ 1000000
        → Asks op_read w size tag o n
        → handle_io b w tag s ≡ some (neg eio, w, failed_read s)
    total_read_failure drawn full asks =
        let fails =
          same.read_same n (pos o) s _
            (read_fails n (pos o) (omega (arith, full, drawn s.draws))) in
        handle_io_read b w size tag o n s asks
        ∙ handle_read_call b w tag (pos o) n s v asks.listed asks.some_asked asks.fits
        ∙ rw fails (
            ap₂ (λ (r : ℤ) (m : List ℕ). some (r, record w { pool = m }, failed_read s))
              (outcome_failed n _ refl) (overwrite_nothing (tag * w.buf_size) n w.pool))

    -- A fault becomes -EIO: with draws below 1,000,000 and a rate of failing reads or writes of 1.0, a
    -- request to read or to write, as the case may be, is answered with -EIO, no byte of the backend or
    -- of the worker's buffers changes, and the fault is counted once.
    pub total_failure :
        (c : Transfer)
        → ((i : ℕ) → rand i < 1000000)
        → fail_rate c s ≡ 1000000
        → Asks (op_of c) w size tag o n
        → handle_io b w tag s ≡ some (neg eio, w, failed_call c s)
    total_failure pread drawn full asks = total_read_failure drawn full asks
    total_failure pwrite drawn full asks = total_write_failure drawn full asks
