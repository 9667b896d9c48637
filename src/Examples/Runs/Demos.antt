-- ===== src/Examples/Runs/Demos.antt =====
-- What example/main.go, example/sigkill/main.go, example/fsdemo/main.go and example/flushbench/main.go
-- do with their devices.
use ublk_go.Prelude.{ℕ, zero, suc, Bool, true, false, ◌||◌, not, Option, none, some}
use ublk_go.Examples.Runs.{
  Flow, open_node, pwrite, transfer, ◌>>=◌, ◌>>◌, give, run_command, reads, new_device, shut_device,
  with_device, with_mount, if_fine, checked,
}

-- How a program ends.
pub data End : Type 0 where
  fine : End
  failed : End
  killed : End
  panicked : End

abbrev end_of : Bool → End
end_of true = failed
end_of false = fine

-- `main` of example/main.go: the command is the wait for the signal.
unfoldable pub main_after : Option ℕ → Flow End
main_after none = give failed
main_after (some d) = do run_command; err ← shut_device d; give (end_of err)

unfoldable pub main_run : Flow End
main_run = new_device >>= main_after

-- `waitGone`, on fuel: whether a node is still there, and whether both nodes are gone before the deadline.
unfoldable pub still_there : Flow Bool
still_there = do block ← run_command; char ← run_command; give (block || char)

unfoldable pub wait_gone : ℕ → Flow Bool
wait_gone zero = give false
wait_gone (suc n) =
    checked false (reads (λ o t. o.in_time t))
      (checked true still_there (do run_command; wait_gone n))

-- The parent's own device, once the child is gone.
unfoldable pub parent_after : ℕ → Option ℕ → Flow End
parent_after fuel none = give failed
parent_after fuel (some d) = do
  err ← shut_device d
  if_fine failed (do wait_gone fuel; give fine) (not err)

-- The child is killed if it did not announce its device.
unfoldable pub or_kill : Flow End → Bool → Flow End
or_kill rest true = rest
or_kill rest false = do run_command; give failed

-- `runParent` of example/sigkill/main.go: the executable, the pipe, the start, the announcement, the
-- signal and the wait, each of which may end it.
unfoldable pub run_parent : ℕ → Flow End
run_parent fuel = checked failed run_command (
    checked failed run_command (
      checked failed run_command (
        run_command
        >>= or_kill (
            checked failed run_command
              (checked failed (reads (λ o t. o.in_time t)) (new_device >>= parent_after fuel))))))

-- The loop of the child, which writes until it is killed.
unfoldable pub hammer : ℕ → ℕ → Flow End
hammer zero d = give killed
hammer (suc n) d = do transfer pwrite d 0 4096; hammer n d

unfoldable pub child_opened : ℕ → ℕ → Bool → Flow End
child_opened n d false = give failed
child_opened n d true = hammer n d

-- The child, killed after `n` writes. The command is the print of its announcement.
unfoldable pub child_after : ℕ → Option ℕ → Flow End
child_after n none = do run_command; give failed
child_after n (some d) = do run_command; open_node d >>= child_opened n d

unfoldable pub run_child : ℕ → Flow End
run_child n = new_device >>= child_after n

-- The guard of a `main` that must be run as root.
unfoldable pub as_root : Flow End → Flow End
as_root run = checked failed run_command run

unfoldable pub sigkill_main : Bool → ℕ → Flow End
sigkill_main true fuel = run_child fuel
sigkill_main false fuel = as_root (run_parent fuel)

-- `run` of example/fsdemo/main.go, with the mount point made and removed.
unfoldable pub fsdemo_mounted : Flow End
fsdemo_mounted = checked failed run_command (
    checked failed run_command (do
      run_command
      checked failed run_command
          (checked failed (reads (λ o t. o.holds_good t)) (do run_command; give fine))))

-- A program that formats its device, makes a mount point, mounts the device there, and removes the
-- mount point once the device is unmounted.
unfoldable pub formatted : Flow End → ℕ → Flow End
formatted body d =
    checked failed run_command
      (checked failed run_command (do r ← with_mount failed d body; run_command; give r))

unfoldable pub fsdemo_run : Flow End
fsdemo_run = with_device failed (formatted fsdemo_mounted)

-- `measure` of example/flushbench/main.go around the calls of an experiment, whose errors it only
-- prints.
unfoldable pub measured : ℕ → Flow Unit
measured zero = give tt
measured (suc n) = checked tt run_command (measured n)

-- The experiments, by how many calls each makes.
unfoldable pub experiments : Flow Unit
experiments = do measured 3; measured 1; measured 1; measured 2; measured 2; measured 2

unfoldable pub flushbench_run : Flow End
flushbench_run = with_device failed (formatted (do experiments; give fine))

unfoldable pub flushbench_main : Flow End
flushbench_main = as_root flushbench_run
