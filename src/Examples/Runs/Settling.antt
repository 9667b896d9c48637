-- ===== src/Examples/Runs/Settling.antt =====
-- The stressors, and the flows that close their device themselves, leave no device held or unclosed.
use ublk_go.Prelude.{
  replicate, ℕ, zero, suc, ◌≡◌, refl, sym, Bool, true, false, List, [], ◌∷◌, ◌++◌, arith,
  if◌then◌else◌,
}
use ublk_go.Examples.Runs.{Outside, Flow, ◌>>=◌, give, if_fine, checked, new_device}
use ublk_go.Examples.Runs.Counts.{one_if_self, nothing, plus}
use ublk_go.Examples.Runs.Kept.{
  Tidy, seq-Tidy, give-Tidy, reads-Tidy, run_command-Tidy, transfer-Tidy, with_node-Tidy,
}
use ublk_go.Examples.Runs.Writing.{all_of, all_of-append, write_and_close-Moves}
use ublk_go.Examples.Runs.Moves.{
  Moves, bind-Moves, seq-Moves, Tidy-Moves, give-Moves, open-Moves, shut-Moves, shut_again,
  new-Moves, recount, Settles, if_open,
}
use ublk_go.Examples.Runs.Stressors.{
  Summary, passes, churn_after, churn, open_nodes, io_while_after, io_while_close, close_calls,
  concurrent_after, concurrent_close, if_node, if_device, make_many, shut_each, close_many,
  many_devices, if_running, each_stressor, stress_main,
}

-- A device that is held `k` times.
abbrev times : ℕ → ℕ → ℕ → ℕ
times k d = all_of (replicate k d)

module _ (W : Outside → Type 0) where
  pub if_fine-Settles :
      {A : Type 0} (failed : A) {rest : Flow A}
      → Settles W rest
      → (ok : Bool) → Settles W (if_fine failed rest ok)
  unfolding if_fine
  if_fine-Settles failed settled false = give-Moves W nothing nothing failed
  if_fine-Settles failed settled true = settled

  passes-Settles :
      (n : ℕ) {pass : Summary → Flow Summary}
      → ((sm : Summary) → Settles W (pass sm))
      → (sm : Summary) → Settles W (passes n pass sm)
  unfolding passes checked
  passes-Settles zero settled sm = give-Moves W nothing nothing sm
  passes-Settles (suc n) settled sm =
      bind-Moves W (Tidy-Moves W nothing nothing (reads-Tidy W _))
        (if_fine-Settles sm (bind-Moves W (settled sm) (passes-Settles n settled)))

  -- A flow that changes nothing of what is held, at any point.
  pub tidy : {A : Type 0} {h m : ℕ → ℕ} {f : Flow A} → Tidy W h f → Moves W h m f (λ _. h) (λ _. m)
  tidy {h = h} {m = m} tf = Tidy-Moves W h m tf

  pub none-Settles : {A : Type 0} (a : A) → Settles W (give a)
  none-Settles a = give-Moves W nothing nothing a

  pub churn-Settles : (fuel : ℕ) → Settles W (churn fuel)
  unfolding churn churn_after
  churn-Settles fuel =
      passes-Settles fuel
        (λ sm.
          new-Moves W nothing nothing (churn_after sm)
            (tidy (seq-Tidy W (run_command-Tidy W) (give-Tidy W _)))
            (λ d _.
              seq-Moves W
                (tidy (
                  with_node-Tidy W tt d (
                    seq-Tidy W (transfer-Tidy W _ d _ _ (omega (arith, one_if_self d)))
                      (give-Tidy W tt))))
                (bind-Moves W (shut-Moves W nothing nothing d refl) (λ failed. none-Settles _))))
        _

  open_nodes-Moves :
      (m : ℕ → ℕ) (n d k : ℕ)
      → Moves W (times k d) m (open_nodes n d k) (λ fds. times fds d) (λ _. m)
  unfolding open_nodes give
  open_nodes-Moves m zero d k = record { moves = λ w t t₁ ok even r. r }
  open_nodes-Moves m (suc n) d k = bind-Moves W (open-Moves W (times k d) m d) (λ ok.
      elim ok
        as (λ (x : Bool).
          Moves W (if_open (times k d) d x) m (open_nodes n d (if x then suc k else k))
            (λ fds. times fds d) (λ _. m)) [
              | true ↦ open_nodes-Moves m n d (suc k)
              | false ↦ open_nodes-Moves m n d k
            ])

  pub io_while-Settles : (workers fuel : ℕ) → Settles W (io_while_close workers fuel)
  unfolding io_while_close io_while_after
  io_while-Settles workers fuel =
      passes-Settles fuel
        (λ sm. new-Moves W nothing nothing (io_while_after workers sm) (none-Settles _) (λ d _.
          bind-Moves W (open_nodes-Moves (plus nothing d) workers d 0) (λ fds.
            seq-Moves W (tidy (run_command-Tidy W)) (
              bind-Moves W (write_and_close-Moves W (plus nothing d) (replicate fds d)) (λ running.
                bind-Moves W (tidy (reads-Tidy W _)) (λ drained.
                  bind-Moves W (shut-Moves W nothing nothing d refl) (λ failed.
                    bind-Moves W (tidy (reads-Tidy W _)) (λ in_time. none-Settles _))))))))
        _

  close_calls-Settles : (n d : ℕ) (sm : Summary) → Settles W (close_calls n d sm)
  unfolding close_calls
  close_calls-Settles zero d sm = none-Settles sm
  close_calls-Settles (suc n) d sm =
      bind-Moves W (shut_again W nothing nothing d refl) (λ failed. close_calls-Settles n d _)

  -- At least one goroutine calls `Close`.
  close_calls-Moves :
      (n d : ℕ) (sm : Summary)
      → Moves W nothing (plus nothing d) (close_calls (suc n) d sm) (λ _. nothing) (λ _. nothing)
  unfolding close_calls
  close_calls-Moves n d sm =
      bind-Moves W (shut-Moves W nothing nothing d refl) (λ failed. close_calls-Settles n d _)

  pub concurrent-Settles : (n fuel : ℕ) → Settles W (concurrent_close (suc n) fuel)
  unfolding concurrent_close concurrent_after
  concurrent-Settles n fuel =
      passes-Settles fuel
        (λ sm.
          new-Moves W nothing nothing (concurrent_after (suc n) sm) (none-Settles _)
            (λ d _. bind-Moves W (close_calls-Moves n d sm) (λ sm'. none-Settles _)))
        _

  abbrev Makes : List ℕ → Flow (List ℕ × Summary) → Type 0
  Makes devs f = Moves W (all_of devs) (all_of devs) f (λ out. all_of out.0) (λ out. all_of out.0)

  gives-Makes : (devs : List ℕ) (sm : Summary) → Makes devs (give (devs, sm))
  unfolding give
  gives-Makes devs sm = record { moves = λ w t t₁ ok even r. r }

  if_node-Moves :
      (devs : List ℕ) (sm : Summary) (d : ℕ)
      → all_of devs d ≡ 0
      → (ok : Bool)
      → Moves W
          (if_open (all_of devs) d ok)
          (plus (all_of devs) d)
          (if_node devs sm d ok)
          (λ out. all_of out.0)
          (λ out. all_of out.0)
  unfolding if_node
  if_node-Moves devs sm d fresh true =
      recount W (λ e. sym (all_of-append devs d e)) (λ e. sym (all_of-append devs d e))
        (gives-Makes (devs ++ d ∷ []) sm)
  if_node-Moves devs sm d fresh false =
      seq-Moves W (shut-Moves W (all_of devs) (all_of devs) d fresh) (gives-Makes devs _)

  make_one-Makes : (devs : List ℕ) (sm : Summary) → Makes devs (new_device >>= if_device devs sm)
  unfolding if_device
  make_one-Makes devs sm =
      new-Moves W (all_of devs) (all_of devs) (if_device devs sm) (gives-Makes devs _) (λ d fresh.
        bind-Moves W (open-Moves W (all_of devs) (plus (all_of devs) d) d)
          (if_node-Moves devs sm d fresh))

  make_many-Makes : (n : ℕ) (devs : List ℕ) (sm : Summary) → Makes devs (make_many n devs sm)
  unfolding make_many
  make_many-Makes zero devs sm = gives-Makes devs sm
  make_many-Makes (suc n) devs sm =
      bind-Moves W (make_one-Makes devs sm) (λ out. make_many-Makes n out.0 out.1)

  shut_each-Moves :
      (ds : List ℕ) (sm : Summary)
      → Moves W nothing (all_of ds) (shut_each ds sm) (λ _. nothing) (λ _. nothing)
  unfolding shut_each
  shut_each-Moves [] sm = none-Settles sm
  shut_each-Moves (d ∷ ds) sm =
      bind-Moves W (shut-Moves W nothing (all_of ds) d refl)
        (λ failed. bind-Moves W (tidy (reads-Tidy W _)) (λ in_time. shut_each-Moves ds _))

  close_many-Moves :
      (ds : List ℕ) (sm : Summary)
      → Moves W (all_of ds) (all_of ds) (close_many ds sm) (λ _. nothing) (λ _. nothing)
  unfolding close_many
  close_many-Moves [] sm = none-Settles sm
  close_many-Moves (d ∷ ds) sm = seq-Moves W (tidy (run_command-Tidy W)) (
      bind-Moves W (write_and_close-Moves W (all_of (d ∷ ds)) (d ∷ ds)) (λ running.
        bind-Moves W (tidy (reads-Tidy W _))
          (λ drained. bind-Moves W (shut_each-Moves (d ∷ ds) _) (λ sm'. none-Settles _))))

  pub many-Settles : (parallel fuel : ℕ) → Settles W (many_devices parallel fuel)
  unfolding many_devices
  many-Settles parallel fuel =
      passes-Settles fuel
        (λ sm. bind-Moves W (make_many-Makes parallel [] sm) (λ out. close_many-Moves out.0 out.1))
        _

  abbrev AllSettle : List (Flow Summary) → Type 0
  AllSettle [] = Unit
  AllSettle (f ∷ fs) = Settles W f × AllSettle fs

  if_running-Settles :
      {f : Flow Summary} → Settles W f → (running : Bool) → Settles W (if_running f running)
  unfolding if_running
  if_running-Settles settled false = none-Settles _
  if_running-Settles settled true = bind-Moves W settled (λ sm. none-Settles _)

  each_stressor-Settles : (fs : List (Flow Summary)) → AllSettle fs → Settles W (each_stressor fs)
  unfolding each_stressor
  each_stressor-Settles [] all = none-Settles _
  each_stressor-Settles (f ∷ fs) all = bind-Moves W (tidy (reads-Tidy W _)) (λ running.
      bind-Moves W (if_running-Settles all.0 running)
        (λ done. bind-Moves W (each_stressor-Settles fs all.1) (λ rest. none-Settles _)))

  pub stress-Settles : (n parallel fuel : ℕ) → Settles W (stress_main (suc n) parallel fuel)
  unfolding stress_main
  stress-Settles n parallel fuel =
      bind-Moves W
        (each_stressor-Settles _ (
          churn-Settles fuel,
          (
            io_while-Settles (suc n) fuel,
            (concurrent-Settles n fuel, (many-Settles parallel fuel, tt)),
          ),
        ))
        (λ sms. none-Settles _)
