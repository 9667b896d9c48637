-- ===== src/Examples/Runs/Tidy.antt =====
-- The programs use their devices as `Close` of ublk/device.go asks for.
use ublk_go.Prelude.{ℕ, suc, ◌≡◌, ◌⊎◌, true, false, []}
use ublk_go.Examples.Runs.{Outside, Flow, Trail}
use ublk_go.Examples.Runs.Counts.{IsSafe, nothing, IsTidy, begun-IsTidy}
use ublk_go.Examples.Runs.Kept.{
  Tidy, seq-Tidy, give-Tidy, checked-Tidy, run_command-Tidy, with_device-Tidy,
}
use ublk_go.Examples.Runs.Settling.{tidy}
use ublk_go.Examples.Runs.Scenarios.{fault_main, fault_main-Ends}
use ublk_go.Examples.Runs.Mains.{sigkill_main-Settles, child-IsSafe}
use ublk_go.Examples.Runs.Moves.{Settles, Settles-IsTidy}
use ublk_go.Examples.Runs.Settling.{
  churn-Settles, io_while-Settles, concurrent-Settles, many-Settles, stress-Settles,
}
use ublk_go.Examples.Runs.Stressors.{
  churn, io_while_close, concurrent_close, many_devices, stress_main,
}
use ublk_go.Examples.Runs.Demos.{
  panicked, fine, failed, main_run, as_root, sigkill_main, fsdemo_run, flushbench_run,
  flushbench_main,
}
use ublk_go.Examples.Runs.Faults.{low_rate, total_write_fail, total_read_fail, close_with_errors}
use ublk_go.Examples.Runs.Programs.{
  low_rate-Tidy, total_write-Tidy, total_read-Tidy, close_with_errors-Settles, main-Settles,
  formatted-Tidy, fsdemo_mounted-Tidy, experiments-Tidy,
}

kept-IsTidy :
    {A : Type 0} {W : Outside → Type 0} {f : Flow A} (w : Outside)
    → W w
    → Tidy W nothing f
    → IsTidy (f w []).1
kept-IsTidy {W = W} w ok kept = Settles-IsTidy W (tidy W kept) w [] ok begun-IsTidy

settled :
    {A : Type 0} {W : Outside → Type 0} {f : Flow A} (w : Outside)
    → W w
    → Settles W f
    → IsTidy (f w []).1
settled {W = W} w ok s = Settles-IsTidy W s w [] ok begun-IsTidy

abbrev Anything : Outside → Type 0
Anything w = Unit

-- The programs, with `n` for the numbers of workers and devices.
abbrev pub ProgramsTidy : Outside → ℕ → ℕ → Type 0
ProgramsTidy w n fuel =
    IsTidy (main_run w []).1
    × IsTidy (sigkill_main false fuel w []).1
    × IsSafe (sigkill_main true fuel w []).1
    × ((IsTidy (fault_main w []).1 ⊎ ((fault_main w []).0 ≡ panicked)) × IsSafe (fault_main w []).1)
    × IsTidy (low_rate w []).1
    × IsTidy (total_write_fail w []).1
    × IsTidy (total_read_fail w []).1
    × IsTidy (close_with_errors w []).1
    × IsTidy (churn fuel w []).1
    × IsTidy (io_while_close n fuel w []).1
    × IsTidy (concurrent_close (suc n) fuel w []).1
    × IsTidy (many_devices n fuel w []).1
    × IsTidy (stress_main (suc n) n fuel w []).1

-- Whatever is answered, example/main.go, the parent of example/sigkill, the scenarios of example/fault,
-- and the stressors of example/stress, alone and as its main runs them, whatever turns the writer
-- goroutines take until the program has waited for them, never call `Close` of a device while they have
-- a descriptor of its block node open, only begin to read or write a device while they have one open,
-- close every descriptor that they opened, and call `Close` of every device that they made, on every
-- error path; `concurrentClose` and the main of example/stress with at least one worker. The child of
-- example/sigkill, which is killed, only writes to its device while it has a descriptor of its block
-- node open. The main of example/fault, which panics if a scenario hangs, does all of the first unless
-- it panics, and up to the panic never calls `Close`, reads or writes out of that order even then.
pub programs_tidy : (w : Outside) (n fuel : ℕ) → ProgramsTidy w n fuel
programs_tidy w n fuel = (
  settled {W = Anything} w tt (main-Settles Anything),
  settled {W = Anything} w tt (sigkill_main-Settles Anything fuel),
  child-IsSafe fuel w,
  fault_main-Ends w,
  kept-IsTidy {W = Anything} w tt (low_rate-Tidy Anything),
  kept-IsTidy {W = Anything} w tt (total_write-Tidy Anything),
  kept-IsTidy {W = Anything} w tt (total_read-Tidy Anything),
  settled {W = Anything} w tt (close_with_errors-Settles Anything),
  settled {W = Anything} w tt (churn-Settles Anything fuel),
  settled {W = Anything} w tt (io_while-Settles Anything n fuel),
  settled {W = Anything} w tt (concurrent-Settles Anything n fuel),
  settled {W = Anything} w tt (many-Settles Anything n fuel),
  settled {W = Anything} w tt (stress-Settles Anything n n fuel),
)

-- No deadline passes.
abbrev pub InTime : Outside → Type 0
InTime w = (t : Trail) → w.in_time t ≡ true

-- Every umount succeeds.
abbrev pub Unmounts : Outside → Type 0
Unmounts w = (t : Trail) (d : ℕ) → w.unmounts t d ≡ true

-- If every umount succeeds, example/fsdemo and example/flushbench never call `Close` of their device
-- while it is mounted, unmount it if they mounted it, and call `Close` if they made it, on every error
-- path.
pub mounted-IsTidy :
    (w : Outside) → Unmounts w → IsTidy (fsdemo_run w []).1 × IsTidy (flushbench_main w []).1
unfolding fsdemo_run flushbench_run flushbench_main as_root
mounted-IsTidy w all = (
  kept-IsTidy {W = Unmounts} w all (
      with_device-Tidy Unmounts _
        (λ d. formatted-Tidy Unmounts (λ o ok. ok) d (fsdemo_mounted-Tidy Unmounts))),
  kept-IsTidy {W = Unmounts} w all (
      checked-Tidy Unmounts failed (run_command-Tidy Unmounts) (
        with_device-Tidy Unmounts _ (λ d.
          formatted-Tidy Unmounts (λ o ok. ok) d
            (seq-Tidy Unmounts (experiments-Tidy Unmounts) (give-Tidy Unmounts fine))))),
)
