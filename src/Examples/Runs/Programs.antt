-- ===== src/Examples/Runs/Programs.antt =====
-- Each program leaves no device held or unclosed.
use ublk_go.Prelude.{
  ◌<◌, arith, ℕ, zero, suc, ◌+◌, ◌≡◌, refl, true, false, Bool, List, [], ◌∷◌, Option, none, some,
}
use ublk_go.Examples.Runs.{Outside, Flow, ◌>>=◌, Trail, Transfer, checked, new_device}
use ublk_go.Examples.Runs.Counts.{one_if_self, nothing, plus}
use ublk_go.Examples.Runs.Kept.{
  Same-trans, looked-Same, Tidy, bind-Tidy, seq-Tidy, give-Tidy, reads-Tidy, run_command-Tidy,
  transfer-Tidy, with_device-Tidy, with_node-Tidy, with_mount-Tidy, checked-Tidy,
}
use ublk_go.Examples.Runs.Chained.{
  whole, roundtrip, interleaved, run_step, or_next, each_step, chain_steps, run_chain, ChainError,
}
use ublk_go.Examples.Runs.Moves.{bind-Moves, seq-Moves, shut-Moves, new-Moves, Settles}
use ublk_go.Examples.Runs.Settling.{if_fine-Settles, tidy, none-Settles}
use ublk_go.Examples.Runs.Demos.{
  End, fine, failed, main_after, main_run, still_there, wait_gone, parent_after, or_kill,
  run_parent, fsdemo_mounted, formatted, measured, experiments,
}
use ublk_go.Examples.Runs.Faults.{
  attempt_loop, low_rate, total_write_fail, total_read_fail, close_after, close_with_errors,
}

module _ (W : Outside → Type 0) where
  whole-Tidy : {h : ℕ → ℕ} (c : Transfer) (d off n : ℕ) → 0 < h d → Tidy W h (whole c d off n)
  unfolding whole
  whole-Tidy c d off n is_open =
      bind-Tidy W (transfer-Tidy W c d off n is_open) (λ r. give-Tidy W _)

  roundtrip-Tidy : {h : ℕ → ℕ} (d off n : ℕ) → 0 < h d → Tidy W h (roundtrip d off n)
  unfolding roundtrip
  roundtrip-Tidy d off n is_open = checked-Tidy W _ (run_command-Tidy W) (
      checked-Tidy W _ (whole-Tidy _ d off n is_open) (
        checked-Tidy W _ (whole-Tidy _ d off n is_open)
          (checked-Tidy W _ (reads-Tidy W _) (reads-Tidy W _))))

  interleaved-Tidy : {h : ℕ → ℕ} (n i d : ℕ) → 0 < h d → Tidy W h (interleaved n i d)
  unfolding interleaved
  interleaved-Tidy zero i d is_open = give-Tidy W _
  interleaved-Tidy (suc n) i d is_open =
      checked-Tidy W _ (roundtrip-Tidy d _ _ is_open) (interleaved-Tidy n (i + 1) d is_open)

  -- No step hangs.
  abbrev pub IsPrompt : Type 0
  IsPrompt = (w : Outside) → W w → (t : Trail) → w.in_time t ≡ true

  run_step-Tidy : {h : ℕ → ℕ} {m : Flow Bool} → IsPrompt → Tidy W h m → Tidy W h (run_step m)
  unfolding run_step
  run_step-Tidy {m = m} prompt tm = record {
    same = λ w t ok has.
        rw (prompt w ok (m w t).1) (Same-trans (tm.same w t ok has) (looked-Same (m w t).1));
  }

  or_next-Tidy :
      {h : ℕ → ℕ} {m : Flow (Option ChainError)}
      → Tidy W h m
      → (r : Option ChainError) → Tidy W h (or_next m r)
  unfolding or_next
  or_next-Tidy tm none = tm
  or_next-Tidy tm (some e) = give-Tidy W _

  abbrev AllTidy : (ℕ → ℕ) → List (Flow Bool) → Type 0
  AllTidy h [] = Unit
  AllTidy h (m ∷ ms) = Tidy W h m × AllTidy h ms

  each_step-Tidy :
      {h : ℕ → ℕ} (ms : List (Flow Bool)) → IsPrompt → AllTidy h ms → Tidy W h (each_step ms)
  unfolding each_step
  each_step-Tidy [] prompt all = give-Tidy W _
  each_step-Tidy (m ∷ ms) prompt all =
      bind-Tidy W (run_step-Tidy prompt all.0) (or_next-Tidy (each_step-Tidy ms prompt all.1))

  pub run_chain-Tidy : IsPrompt → Tidy W nothing run_chain
  unfolding run_chain
  run_chain-Tidy prompt = with_device-Tidy W _ (λ storage. with_node-Tidy W _ storage (
      with_device-Tidy W _ (λ proxy. with_node-Tidy W _ proxy (
        let is_open : 0 < plus (plus nothing storage) proxy proxy =
          omega (arith, one_if_self proxy) in
        each_step-Tidy (chain_steps proxy) prompt (
          roundtrip-Tidy proxy _ _ is_open,
          (
            roundtrip-Tidy proxy _ _ is_open,
            (
              roundtrip-Tidy proxy _ _ is_open,
              (
                roundtrip-Tidy proxy _ _ is_open,
                (interleaved-Tidy 16 0 proxy is_open, (reads-Tidy W _, tt)),
              ),
            ),
          ),
        )))))

  attempt_loop-Tidy :
      {h : ℕ → ℕ} (c : Transfer) (off : ℕ → ℕ) (n i d errs : ℕ)
      → 0 < h d
      → Tidy W h (attempt_loop c off n i d errs)
  unfolding attempt_loop
  attempt_loop-Tidy c off zero i d errs is_open = give-Tidy W _
  attempt_loop-Tidy c off (suc n) i d errs is_open =
      bind-Tidy W (transfer-Tidy W c d _ _ is_open)
        (λ r. attempt_loop-Tidy c off n (i + 1) d _ is_open)

  pub low_rate-Tidy : Tidy W nothing low_rate
  unfolding low_rate
  low_rate-Tidy = with_device-Tidy W _ (λ d. with_node-Tidy W _ d (
      bind-Tidy W (attempt_loop-Tidy _ _ 200 0 d 0 (omega (arith, one_if_self d))) (λ errs.
        bind-Tidy W (reads-Tidy W _)
          (λ writes. bind-Tidy W (reads-Tidy W _) (λ injected. give-Tidy W _)))))

  pub total_write-Tidy : Tidy W nothing total_write_fail
  unfolding total_write_fail
  total_write-Tidy = with_device-Tidy W _ (λ d. with_node-Tidy W _ d (
      bind-Tidy W (attempt_loop-Tidy _ _ 5 0 d 0 (omega (arith, one_if_self d)))
        (λ errs. give-Tidy W _)))

  pub total_read-Tidy : Tidy W nothing total_read_fail
  unfolding total_read_fail
  total_read-Tidy = with_device-Tidy W _ (λ d. with_node-Tidy W _ d (
      bind-Tidy W (attempt_loop-Tidy _ _ 5 0 d 0 (omega (arith, one_if_self d)))
        (λ errs. give-Tidy W _)))

  pub close_with_errors-Settles : Settles W close_with_errors
  unfolding close_with_errors close_after
  close_with_errors-Settles = new-Moves W nothing nothing close_after (none-Settles W _) (λ d _.
      bind-Moves W
        (tidy W (
          with_node-Tidy W _ d (
            seq-Tidy W (attempt_loop-Tidy _ _ 10 0 d 0 (omega (arith, one_if_self d)))
              (give-Tidy W none))))
        (λ r.
          bind-Moves W (shut-Moves W nothing nothing d refl)
            (λ failed. bind-Moves W (tidy W (reads-Tidy W _)) (λ in_time. none-Settles W _))))

  pub main-Settles : Settles W main_run
  unfolding main_run main_after
  main-Settles = new-Moves W nothing nothing main_after (none-Settles W _) (λ d _.
      seq-Moves W (tidy W (run_command-Tidy W))
        (bind-Moves W (shut-Moves W nothing nothing d refl) (λ err. none-Settles W _)))

  still_there-Tidy : {h : ℕ → ℕ} → Tidy W h still_there
  unfolding still_there
  still_there-Tidy =
      bind-Tidy W (run_command-Tidy W)
        (λ block. bind-Tidy W (run_command-Tidy W) (λ char. give-Tidy W _))

  wait_gone-Tidy : {h : ℕ → ℕ} (n : ℕ) → Tidy W h (wait_gone n)
  unfolding wait_gone
  wait_gone-Tidy zero = give-Tidy W false
  wait_gone-Tidy (suc n) =
      checked-Tidy W _ (reads-Tidy W _)
        (checked-Tidy W _ still_there-Tidy (seq-Tidy W (run_command-Tidy W) (wait_gone-Tidy n)))

  pub checked-Settles :
      {A : Type 0} (e : A) {m : Flow Bool} {rest : Flow A}
      → Tidy W nothing m
      → Settles W rest
      → Settles W (checked e m rest)
  unfolding checked
  checked-Settles e tm settled = bind-Moves W (tidy W tm) (if_fine-Settles W e settled)

  parent-Settles : (fuel : ℕ) → Settles W (new_device >>= parent_after fuel)
  unfolding parent_after
  parent-Settles fuel = new-Moves W nothing nothing (parent_after fuel) (none-Settles W _) (λ d _.
      bind-Moves W (shut-Moves W nothing nothing d refl) (λ err.
        if_fine-Settles W failed (tidy W (seq-Tidy W (wait_gone-Tidy fuel) (give-Tidy W fine))) _))

  or_kill-Settles : {rest : Flow End} → Settles W rest → (ok : Bool) → Settles W (or_kill rest ok)
  unfolding or_kill
  or_kill-Settles settled true = settled
  or_kill-Settles settled false = tidy W (seq-Tidy W (run_command-Tidy W) (give-Tidy W failed))

  pub parent_run-Settles : (fuel : ℕ) → Settles W (run_parent fuel)
  unfolding run_parent
  parent_run-Settles fuel =
      let command = run_command-Tidy W in
      checked-Settles failed command (
        checked-Settles failed command (
          checked-Settles failed command (
            bind-Moves W (tidy W command) (
              or_kill-Settles (
                checked-Settles failed command
                  (checked-Settles failed (reads-Tidy W _) (parent-Settles fuel)))))))

  -- The programs that mount their device.
  pub formatted-Tidy :
      ((w : Outside) → W w → (t : Trail) (d : ℕ) → w.unmounts t d ≡ true)
      → {h : ℕ → ℕ} {body : Flow End} (d : ℕ) → Tidy W (plus h d) body
      → Tidy W h (formatted body d)
  unfolding formatted
  formatted-Tidy frees_all d kept = checked-Tidy W _ (run_command-Tidy W) (
      checked-Tidy W _ (run_command-Tidy W) (
        bind-Tidy W (with_mount-Tidy W frees_all _ d kept)
          (λ r. seq-Tidy W (run_command-Tidy W) (give-Tidy W r))))

  pub fsdemo_mounted-Tidy : {h : ℕ → ℕ} → Tidy W h fsdemo_mounted
  unfolding fsdemo_mounted
  fsdemo_mounted-Tidy =
      let command = run_command-Tidy W in
      checked-Tidy W _ command (
        checked-Tidy W _ command (
          seq-Tidy W command (
            checked-Tidy W _ command
              (checked-Tidy W _ (reads-Tidy W _) (seq-Tidy W command (give-Tidy W fine))))))

  measured-Tidy : {h : ℕ → ℕ} (n : ℕ) → Tidy W h (measured n)
  unfolding measured
  measured-Tidy zero = give-Tidy W tt
  measured-Tidy (suc n) = checked-Tidy W _ (run_command-Tidy W) (measured-Tidy n)

  pub experiments-Tidy : {h : ℕ → ℕ} → Tidy W h experiments
  unfolding experiments
  experiments-Tidy = seq-Tidy W (measured-Tidy 3) (
      seq-Tidy W (measured-Tidy 1) (
        seq-Tidy W (measured-Tidy 1)
          (seq-Tidy W (measured-Tidy 2) (seq-Tidy W (measured-Tidy 2) (measured-Tidy 2)))))
