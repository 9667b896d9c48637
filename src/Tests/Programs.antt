-- ===== src/Tests/Programs.antt =====
-- The programs under example/ at small inputs.
use ublk_go.Prelude.{
  ℕ, ◌+◌, ◌*◌, ◌%◌, ◌≤◌, ◌<◌, ◌≡◌, refl, true, false, List, Option, some, none, [], ◌∷◌, arith,
  replicate, length, ◌-◌,
}
use native.Mathlib.Nat.{mod-lt}
use ublk_go.Prelude.Int.{pos, neg}
use ublk_go.Prelude.Memory.{stretch, overwrite}
use ublk_go.Storage.{Backend, Reply, ReadReply}
use ublk_go.Worker.{Worker, handle_io}
use ublk_go.Examples.{PartialBackend}
use ublk_go.Examples.Contract.{Agrees}
use ublk_go.Examples.Chain as Chain
use ublk_go.Examples.Fault as Fault
use ublk_go.Examples.Flushbench.{TraceEvent, Printed, op_w, print_since, printed_from, step_of}
use ublk_go.Examples.Backends.{BackendsKeep, backends_keep, storage_holds, chain_roundtrip}
use ublk_go.Examples.Samples.{FirstAt, SampleCount, IsSpaced, print_since_window}
use ublk_go.Examples.Failing.{failed_call, total_failure}
use ublk_go.Examples.Offsets.{rand_offset, jitter, offsets_inside}
use ublk_go.Examples.Runs.{Outside, looked, pread, pwrite}
use ublk_go.Examples.Runs.Demos.{fsdemo_run, flushbench_main}
use ublk_go.Examples.Runs.Faults.{low_rate_offset}
use ublk_go.Examples.Runs.Counts.{IsTidy, makings, shuttings}
use ublk_go.Examples.Runs.Stressors.{concurrent_close}
use ublk_go.Examples.Runs.Tidy.{ProgramsTidy, programs_tidy, mounted-IsTidy}
use ublk_go.Tests.Requests.{
  worker, worker-IsValid, worker_writes, worker_reads, memory-IsDisk, memory-IsEofless, mem_read,
  mem_write,
}

backends_keep_example : BackendsKeep (λ i. i)
backends_keep_example = backends_keep (λ i. i)

-- A backend that answers with an error where the methods would panic.
module _ {S : Type 0} (p : PartialBackend S) where
  or_failed_read : S → Option (ReadReply S) → ReadReply S
  or_failed_read s none = record {
    reply = record { count = pos 0; failed = true; after = s };
    filled = [];
  }
  or_failed_read s (some r) = r

  or_failed_write : S → Option (Reply S) → Reply S
  or_failed_write s none = record { count = pos 0; failed = true; after = s }
  or_failed_write s (some r) = r

  abbrev total : Backend S
  total = record {
    read_at = λ n off s. or_failed_read s (p.read_at n off s);
    write_at = λ bs off s. or_failed_write s (p.write_at bs off s);
    discarder = none;
    zeroer = none;
  }

  total-Agrees : Agrees p total
  unfolding or_failed_read or_failed_write
  total-Agrees = record {
    read_same = λ n off s r e. rw e refl;
    write_same = λ bs off s r e. rw e refl;
  }

abbrev storage : Chain.MemBackend
storage = record {
  bytes = replicate 1024 0;
  reads = 0;
  writes = 0;
  read_bytes = 0;
  write_bytes = 0;
}

storage_holds_example :
    (s : Chain.MemBackend) × (handle_io (total Chain.backend) worker 0 storage
      ≡ some (pos 512, worker, s))
    × (Chain.slice (pos 512) 512 s ≡ some (stretch (0 * 512) 512 worker.pool))
storage_holds_example =
    storage_holds (total Chain.backend) worker 1024 0 512 512 storage (total-Agrees Chain.backend)
      refl worker-IsValid worker_writes

abbrev node : Chain.Descriptor (List ℕ)
node = record { pread = mem_read; pwrite = mem_write }

abbrev proxy : Chain.FdBackend (List ℕ)
proxy = record { target = replicate 1024 0; reads = 0; writes = 0 }

chain_roundtrip_example :
    (f₁ f₂ : Chain.FdBackend (List ℕ)) × (w : Worker) × (handle_io
        (Chain.fd_backend node)
        worker
        0
        proxy
      ≡ some (pos 512, worker, f₁))
    × (f₁.target ≡ overwrite 512 512 (stretch (0 * 512) 512 worker.pool) (replicate 1024 0))
    × (handle_io (Chain.fd_backend node) worker 1 f₁ ≡ some (pos 512, w, f₂))
    × (stretch (1 * 512) 512 w.pool ≡ stretch (0 * 512) 512 worker.pool)
unfolding memory-IsDisk
chain_roundtrip_example =
    chain_roundtrip node 1024 worker worker 0 1 512 512 proxy (memory-IsDisk 1024) refl
      worker-IsValid worker-IsValid worker_writes worker_reads (memory-IsEofless 1024)

abbrev rand : ℕ → ℕ
rand i = i % 1000000

abbrev faulty : Fault.FaultyBackend
faulty = record {
  bytes = replicate 1024 0;
  read_fail = 1000000;
  write_fail = 1000000;
  reads = 0;
  writes = 0;
  read_errs = 0;
  write_errs = 0;
  draws = 0;
}

total_failure_example :
    handle_io (total (Fault.backend rand)) worker 0 faulty
    ≡ some (neg 5, worker, failed_call pwrite faulty)
total_failure_example =
    total_failure rand faulty (total (Fault.backend rand)) (total-Agrees (Fault.backend rand))
      worker 1024 0 512 512 worker-IsValid pwrite (λ i. mod-lt i (omega arith)) refl worker_writes

-- Reads fail as well.
read_failure :
    handle_io (total (Fault.backend rand)) worker 1 faulty
    ≡ some (neg 5, worker, failed_call pread faulty)
read_failure =
    total_failure rand faulty (total (Fault.backend rand)) (total-Agrees (Fault.backend rand))
      worker 1024 1 512 512 worker-IsValid pread (λ i. mod-lt i (omega arith)) refl worker_reads

abbrev event_at : ℕ → TraceEvent
event_at at = record { at = at; op = op_w; off = pos 0; size = 512 }

abbrev events : List TraceEvent
events = event_at 3 ∷ event_at 7 ∷ event_at 9 ∷ []

events_printed : print_since 5 events ≡ some (printed_from 1 events)
unfolding print_since ublk_go.Examples.Flushbench.first_since
events_printed = refl

print_since_window_example :
    (first : ℕ) × FirstAt 5 first events
    × ((printed_from 1 events).calls ≡ 3 - first)
    × SampleCount (printed_from 1 events).calls (length (printed_from 1 events).shown)
    × IsSpaced (step_of (printed_from 1 events).calls) first (printed_from 1 events).shown
print_since_window_example = print_since_window 5 events (printed_from 1 events) events_printed

-- The largest number below the bound.
abbrev largest : ℕ → ℕ
largest bound = bound - 1

offsets_inside_example :
    (low_rate_offset 199 + 4096 ≤ 16777216)
    × (low_rate_offset 199 % 4096 ≡ 0)
    × (rand_offset largest (2097152 - 4096) + 4096 ≤ 2097152)
    × (rand_offset largest (2097152 - 4096) % 4096 ≡ 0)
    × (2 ≤ jitter largest 2 20)
    × (jitter largest 2 20 < 20)
offsets_inside_example =
    offsets_inside largest 199 2 20 (λ bound some. omega (arith, some)) (omega arith)

-- Everything goes well.
abbrev fair : Outside
fair = record {
  makes = λ t. true;
  opens = λ t d. true;
  shut_fails = λ t d. false;
  mounts = λ t d. true;
  unmounts = λ t d. true;
  transfers = λ t c d off n. some n;
  runs = λ t. true;
  holds_good = λ t. true;
  in_time = λ t. true;
  counted = λ t. 200;
  drawn = λ t. 0;
  rand_int = λ t bound. bound - 1;
}

programs_tidy_example : ProgramsTidy fair 2 3
programs_tidy_example = programs_tidy fair 2 3

mounted-IsTidy_example : IsTidy (fsdemo_run fair []).1 × IsTidy (flushbench_main fair []).1
mounted-IsTidy_example = mounted-IsTidy fair (λ t d. refl)

-- Without a worker nothing closes the device of a pass of `concurrentClose`.
no_workers :
    (makings 1 (concurrent_close 0 1 fair []).1 ≡ 1)
    × (shuttings 1 (concurrent_close 0 1 fair []).1 ≡ 0)
unfolding concurrent_close ublk_go.Examples.Runs.Stressors.passes ublk_go.Examples.Runs.checked
    ublk_go.Examples.Runs.◌>>=◌ ublk_go.Examples.Runs.if_fine ublk_go.Examples.Runs.reads
    ublk_go.Examples.Runs.give ublk_go.Examples.Runs.Stressors.concurrent_after
    ublk_go.Examples.Runs.new_device ublk_go.Examples.Runs.Stressors.close_calls
no_workers = (refl, refl)
