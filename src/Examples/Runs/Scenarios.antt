-- ===== src/Examples/Runs/Scenarios.antt =====
-- `main` of example/fault/main.go: its scenarios, each with a timeout that ends the program.
use ublk_go.Prelude.{
  ℕ, zero, suc, ◌≡◌, ◌⊎◌, inl, inr, refl, Bool, true, false, List, [], ◌∷◌, Option, none, some,
  arith, if_both, if◌then◌else◌, drop,
}
use ublk_go.Examples.Runs.{
  cut, Outside, Trail, Flow, ◌>>=◌, give, looked, ran, checked, run_command, if_fine,
}
use ublk_go.Examples.Runs.Counts.{IsTidy, IsSafe}
use ublk_go.Examples.Runs.Moves.{Settles, Settles-IsTidy}
use ublk_go.Examples.Runs.Settling.{tidy}
use ublk_go.Examples.Runs.Demos.{End, fine, failed, panicked, as_root}
use ublk_go.Examples.Runs.Faults.{
  FaultError, low_rate, total_write_fail, total_read_fail, close_with_errors,
}
use ublk_go.Examples.Runs.Programs.{
  low_rate-Tidy, total_write-Tidy, total_read-Tidy, close_with_errors-Settles,
}

-- How a step ends.
pub data StepEnd : Type 0 where
  returned : Option FaultError → StepEnd
  hung : StepEnd

-- A scenario that runs to its end, or is in the middle of its calls when the timeout comes.
unfoldable pub fault_step : Flow (Option FaultError) → Flow StepEnd
fault_step scenario = λ w t.
    let (r, t') = scenario w t in
    if w.in_time t' then (returned r, looked ∷ t') else (hung, cut w t t')

unfoldable pub or_stop : Flow End → StepEnd → Flow End
or_stop rest (returned none) = rest
or_stop rest (returned (some _)) = give failed
or_stop rest hung = give panicked

unfoldable pub each_scenario : List (Flow (Option FaultError)) → Flow End
each_scenario [] = give fine
each_scenario (s ∷ ss) = fault_step s >>= or_stop (each_scenario ss)

abbrev pub scenarios : List (Flow (Option FaultError))
scenarios = low_rate ∷ total_write_fail ∷ total_read_fail ∷ close_with_errors ∷ []

unfoldable pub fault_main : Flow End
fault_main = as_root (each_scenario scenarios)

drop-IsSafe : (n : ℕ) (t : Trail) → IsSafe t → IsSafe (drop n t)
drop-IsSafe zero t safe = safe
drop-IsSafe (suc n) [] safe = tt
drop-IsSafe (suc n) (s ∷ t) safe = drop-IsSafe n t safe.1

abbrev Anything : Outside → Type 0
Anything w = Unit

abbrev AllSettle : List (Flow (Option FaultError)) → Type 0
AllSettle [] = Unit
AllSettle (f ∷ fs) = Settles Anything f × AllSettle fs

-- What is left is tidy unless the program panicked, and safe in any case.
abbrev Ends : End × Trail → Type 0
Ends x = (IsTidy x.1 ⊎ (x.0 ≡ panicked)) × IsSafe x.1

stops-Ends :
    (rest : Flow End) (w : Outside) (t : Trail)
    → IsTidy t
    → Ends (rest w t)
    → (e : Option FaultError) → Ends (or_stop rest (returned e) w t)
unfolding or_stop give
stops-Ends rest w t now later none = later
stops-Ends rest w t now later (some e) = (inl now, now.safe)

looked-IsTidy : (t : Trail) → IsTidy t → IsTidy (looked ∷ t)
looked-IsTidy t now = record {
  safe = (tt, now.safe);
  released = λ d. omega (arith, now.released d);
  all_shut = λ d. omega (arith, now.all_shut d);
}

each-Ends :
    (fs : List (Flow (Option FaultError)))
    → AllSettle fs
    → (w : Outside) (t : Trail) → IsTidy t
    → Ends (each_scenario fs w t)
unfolding each_scenario fault_step or_stop ◌>>=◌ give
each-Ends [] all w t before = (inl before, before.safe)
each-Ends (f ∷ fs) all w t before =
    let after = Settles-IsTidy Anything all.0 w t tt before in
    let next = looked-IsTidy (f w t).1 after in
    if_both (λ (x : StepEnd × Trail). Ends (or_stop (each_scenario fs) x.0 w x.1))
      (w.in_time (f w t).1) _ _
      (stops-Ends (each_scenario fs) w (looked ∷ (f w t).1) next
        (each-Ends fs all.1 w (looked ∷ (f w t).1) next) (f w t).0)
      (inr refl, drop-IsSafe _ (f w t).1 after.safe)

begun : IsTidy (ran ∷ [])
begun = record { safe = (tt, tt); released = λ d. refl; all_shut = λ d. omega arith }

guarded-Ends :
    (w : Outside) (ok : Bool) → Ends (if_fine failed (each_scenario scenarios) ok w (ran ∷ []))
unfolding if_fine give
guarded-Ends w false = (inl begun, begun.safe)
guarded-Ends w true = each-Ends scenarios settle w (ran ∷ []) begun
  where
    settle : AllSettle scenarios
    settle = (
      tidy Anything (low_rate-Tidy Anything),
      (
        tidy Anything (total_write-Tidy Anything),
        (tidy Anything (total_read-Tidy Anything), (close_with_errors-Settles Anything, tt)),
      ),
    )

pub fault_main-Ends : (w : Outside) → Ends (fault_main w [])
unfolding fault_main as_root checked run_command ◌>>=◌
fault_main-Ends w = guarded-Ends w (w.runs [])
