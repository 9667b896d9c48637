-- ===== src/Examples/Runs/Writers.antt =====
-- The writer goroutines of example/stress/main.go while the program closes their descriptors. Whose
-- turn it is, and how many turns there are between two calls of the program, is answered from outside.
use ublk_go.Prelude.{
  ℕ, zero, suc, ◌+◌, ◌-◌, Bool, true, false, List, [], ◌∷◌, Option, none, some, ltb, if◌then◌else◌,
  get_elem?, get_or, set, length, replicate,
}
use ublk_go.Examples.Stress.{dev_size, blk_size}
use ublk_go.Examples.Offsets.{rand_offset}
use ublk_go.Examples.Runs.{Flow, ◌>>=◌, ◌>>◌, give, pwrite, transfer, reads, close_node}

-- A writer goroutine: between two writes, in a write at an offset of a device, or returned.
pub data Writer : Type 0 where
  idle : Writer
  writing : ℕ → ℕ → Writer
  exited : Writer

-- Once the write has ended: the goroutine returns if there was an error.
abbrev after_write : Option ℕ → Writer
after_write none = exited
after_write (some _) = idle

-- The write at a new offset, if the descriptor is still there; the others fail with EBADF.
unfoldable pub write_of : List Writer → ℕ → Option ℕ → Flow (List Writer)
write_of ws i none = give (set ws i exited)
write_of ws i (some d) = do
  off ← reads (λ o t. rand_offset (o.rand_int t) (dev_size - blk_size))
  transfer pwrite d off blk_size
  give (set ws i (writing d off))

-- A turn of goroutine `i`: a write is begun, or the one that it is in ends, which may be after its
-- descriptor was closed. The first `k` descriptors are closed, and the others are of the devices that
-- are listed.
unfoldable pub turn_from : ℕ → List ℕ → List Writer → ℕ → Writer → Flow (List Writer)
turn_from k devs ws i idle = write_of ws i (if ltb i k then none else get_elem? devs (i - k))
turn_from k devs ws i (writing d off) = do
  r ← reads (λ o t. o.transfers t pwrite d off blk_size)
  give (set ws i (after_write r))
turn_from k devs ws i exited = give ws

unfoldable pub turn_of : ℕ → List ℕ → List Writer → ℕ → Flow (List Writer)
turn_of k devs ws i = turn_from k devs ws i (get_or ws i exited)

unfoldable pub turns : ℕ → ℕ → List ℕ → List Writer → Flow (List Writer)
turns zero k devs ws = give ws
turns (suc n) k devs ws = do
  i ← reads (λ o t. o.drawn t)
  ws' ← turn_of k devs ws i
  turns n k devs ws'

unfoldable pub some_turns : ℕ → List ℕ → List Writer → Flow (List Writer)
some_turns k devs ws = reads (λ o t. o.drawn t) >>= λ n. turns n k devs ws

-- The loop that closes the descriptors, and what the goroutines do before, between and after.
unfoldable pub close_among : ℕ → List ℕ → List Writer → Flow (List Writer)
close_among k [] ws = some_turns k [] ws
close_among k (d ∷ devs) ws = do
  ws' ← some_turns k (d ∷ devs) ws
  close_node d
  close_among (k + 1) devs ws'

-- From the start of the goroutines, one for each descriptor, to the last close and on to the wait:
-- which of them run on.
unfoldable pub write_and_close : List ℕ → Flow (List Writer)
write_and_close devs = close_among 0 devs (replicate (length devs) idle)

-- Whether `wg.Wait` returns.
abbrev pub all_exited : List Writer → Bool
all_exited [] = true
all_exited (idle ∷ ws) = false
all_exited (writing _ _ ∷ ws) = false
all_exited (exited ∷ ws) = all_exited ws
