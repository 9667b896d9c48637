-- ===== src/Examples/Runs/Mains.antt =====
-- `main` of the programs that must be run as root, and the child of example/sigkill/main.go.
use ublk_go.Prelude.{
  ℕ, zero, suc, ◌<◌, ◌≡◌, refl, Bool, true, false, [], ◌∷◌, Option, none, some, arith, if_both,
}
use ublk_go.Examples.Runs.{
  Outside, Trail, made, ran, opened, Flow, ◌>>=◌, ◌>>◌, give, run_command, transfer, new_device,
  open_node,
}
use ublk_go.Examples.Runs.Counts.{one_if_self, nothing, holds, frees, IsSafe}
use ublk_go.Examples.Runs.Kept.{Tidy, bind-Tidy, run_command-Tidy, give-Tidy, checked-Tidy}
use ublk_go.Examples.Runs.Moves.{Settles}
use ublk_go.Examples.Runs.Demos.{
  End, fine, failed, panicked, hammer, child_opened, child_after, run_child, as_root, sigkill_main,
}
use ublk_go.Examples.Runs.Chained.{
  ChainError, no_storage, no_storage_node, no_proxy, no_proxy_node, step_failed, hung, run_chain,
}
use ublk_go.Examples.Runs.Programs.{IsPrompt, run_chain-Tidy, checked-Settles, parent_run-Settles}

verdict : Option ChainError → End
verdict none = fine
verdict (some no_storage) = failed
verdict (some no_storage_node) = failed
verdict (some no_proxy) = failed
verdict (some no_proxy_node) = failed
verdict (some step_failed) = failed
verdict (some hung) = panicked

unfoldable pub chain_main : Flow End
unfolding verdict
chain_main = as_root (run_chain >>= λ r. give (verdict r))

module _ (W : Outside → Type 0) where
  pub chain_main-Tidy : IsPrompt W → Tidy W nothing chain_main
  unfolding chain_main as_root
  chain_main-Tidy prompt =
      checked-Tidy W failed (run_command-Tidy W)
        (bind-Tidy W (run_chain-Tidy W prompt) (λ r. give-Tidy W (verdict r)))

  pub sigkill_main-Settles : (fuel : ℕ) → Settles W (sigkill_main false fuel)
  unfolding sigkill_main as_root
  sigkill_main-Settles fuel =
      checked-Settles W failed (run_command-Tidy W) (parent_run-Settles W fuel)

-- The child writes while it has a descriptor.
hammer-IsSafe :
    (n d : ℕ) (w : Outside) (t : Trail)
    → frees d t < holds d t
    → IsSafe t
    → IsSafe (hammer n d w t).1
unfolding hammer ◌>>◌ ◌>>=◌ transfer give
hammer-IsSafe zero d w t is_open safe = safe
hammer-IsSafe (suc n) d w t is_open safe =
    hammer-IsSafe n d w _ (omega (arith, is_open)) (is_open, safe)

child_opened-IsSafe :
    (n d : ℕ) (w : Outside) (t : Trail)
    → holds d t ≡ 0
    → frees d t ≡ 0
    → IsSafe t
    → IsSafe ((open_node d >>= child_opened n d) w t).1
unfolding child_opened open_node ◌>>=◌ give
child_opened-IsSafe n d w t none_held none_freed safe =
    if_both (λ (x : Bool × Trail). IsSafe (child_opened n d x.0 w x.1).1) (w.opens t d) _ _
      (hammer-IsSafe n d w (opened d ∷ t) (omega (arith, none_held, none_freed, one_if_self d))
        (tt, safe))
      (tt, safe)

pub child-IsSafe : (n : ℕ) (w : Outside) → IsSafe (sigkill_main true n w []).1
unfolding sigkill_main run_child child_after new_device run_command ◌>>=◌ ◌>>◌ give
child-IsSafe n w =
    if_both (λ (x : Option ℕ × Trail). IsSafe (child_after n x.0 w x.1).1) (w.makes []) _ _
      (child_opened-IsSafe n 0 w (ran ∷ made 0 ∷ []) refl refl (tt, (tt, tt))) (tt, (tt, tt))
