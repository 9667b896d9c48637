-- ===== src/Examples/Runs/Stressors.antt =====
-- The stressors of example/stress/main.go. Each pass of their loops asks the context first.
use ublk_go.Prelude.{
  ℕ, zero, suc, ◌+◌, Bool, true, false, ◌||◌, ◌&&◌, not, replicate, List, [], ◌∷◌, ◌++◌, Option,
  none, some, if◌then◌else◌,
}
use ublk_go.Examples.Stress.{blk_size}
use ublk_go.Examples.Runs.Writers.{write_and_close, all_exited}
use ublk_go.Examples.Runs.{
  Flow, ◌>>=◌, ◌>>◌, give, pwrite, transfer, run_command, reads, new_device, open_node, shut_device,
  with_node, checked,
}

-- The counts of `summary`.
pub record Summary : Type 0 where
  pub iterations : ℕ
  pub io_errors : ℕ
  pub close_errs : ℕ

abbrev pub no_summary : Summary
no_summary = record { iterations = 0; io_errors = 0; close_errs = 0 }

abbrev add_if : Bool → ℕ → ℕ
add_if c n = if c then n + 1 else n

abbrev io_error : Summary → Summary
io_error sm = record sm { io_errors = sm.io_errors + 1 }

abbrev close_err : Bool → Summary → Summary
close_err c sm = record sm { close_errs = add_if c sm.close_errs }

abbrev iterated : Summary → Summary
iterated sm = record sm { iterations = sm.iterations + 1 }

-- `for ctx.Err() == nil`, on fuel.
unfoldable pub passes : ℕ → (Summary → Flow Summary) → Summary → Flow Summary
passes zero pass sm = give sm
passes (suc n) pass sm = checked sm (reads (λ o t. o.in_time t)) (pass sm >>= passes n pass)

-- A pass of `churn`.
unfoldable pub churn_after : Summary → Option ℕ → Flow Summary
churn_after sm none = do run_command; give (io_error sm)
churn_after sm (some d) = do
  with_node tt d (transfer pwrite d 0 blk_size >> give tt)
  failed ← shut_device d
  give (iterated (close_err failed sm))

unfoldable pub churn : ℕ → Flow Summary
churn fuel = passes fuel (λ sm. new_device >>= churn_after sm) no_summary

-- The descriptors that are opened on a device: `k` are open, and `n` more are tried.
unfoldable pub open_nodes : ℕ → ℕ → ℕ → Flow ℕ
open_nodes zero d k = give k
open_nodes (suc n) d k = open_node d >>= λ ok. open_nodes n d (if ok then suc k else k)

-- A pass of `ioWhileClose`: the two waits end in time or count as errors.
unfoldable pub io_while_after : ℕ → Summary → Option ℕ → Flow Summary
io_while_after workers sm none = give (io_error sm)
io_while_after workers sm (some d) = do
  fds ← open_nodes workers d 0
  run_command
  running ← write_and_close (replicate fds d)
  in_wait ← reads (λ o t. o.in_time t)
  let drained = in_wait && all_exited running
  failed ← shut_device d
  in_time ← reads (λ o t. o.in_time t)
  give (iterated (close_err (failed || not in_time) (close_err (not drained) sm)))

unfoldable pub io_while_close : ℕ → ℕ → Flow Summary
io_while_close workers fuel =
    passes fuel (λ sm. new_device >>= io_while_after workers sm) no_summary

-- `Close` from `n` goroutines, in the order in which they come to it.
unfoldable pub close_calls : ℕ → ℕ → Summary → Flow Summary
close_calls zero d sm = give sm
close_calls (suc n) d sm = shut_device d >>= λ failed. close_calls n d (close_err failed sm)

unfoldable pub concurrent_after : ℕ → Summary → Option ℕ → Flow Summary
concurrent_after workers sm none = give (io_error sm)
concurrent_after workers sm (some d) = do sm' ← close_calls workers d sm; give (iterated sm')

unfoldable pub concurrent_close : ℕ → ℕ → Flow Summary
concurrent_close workers fuel =
    passes fuel (λ sm. new_device >>= concurrent_after workers sm) no_summary

-- The first loop of `manyDevices`: the devices that are made, each with a descriptor, with `n` left.
unfoldable pub if_node : List ℕ → Summary → ℕ → Bool → Flow (List ℕ × Summary)
if_node devs sm d true = give (devs ++ d ∷ [], sm)
if_node devs sm d false = do shut_device d; give (devs, io_error sm)

unfoldable pub if_device : List ℕ → Summary → Option ℕ → Flow (List ℕ × Summary)
if_device devs sm none = give (devs, io_error sm)
if_device devs sm (some d) = open_node d >>= if_node devs sm d

unfoldable pub make_many : ℕ → List ℕ → Summary → Flow (List ℕ × Summary)
make_many zero devs sm = give (devs, sm)
make_many (suc n) devs sm = do out ← new_device >>= if_device devs sm; make_many n out.0 out.1

-- `Close` of each device, whose goroutines wait for it for a time.
unfoldable pub shut_each : List ℕ → Summary → Flow Summary
shut_each [] sm = give sm
shut_each (d ∷ ds) sm = do
  failed ← shut_device d
  in_time ← reads (λ o t. o.in_time t)
  shut_each ds (close_err (failed || not in_time) sm)

unfoldable pub close_many : List ℕ → Summary → Flow Summary
close_many [] sm = give sm
close_many (d ∷ ds) sm = do
  run_command
  running ← write_and_close (d ∷ ds)
  in_wait ← reads (λ o t. o.in_time t)
  let drained = in_wait && all_exited running
  sm' ← shut_each (d ∷ ds) (close_err (not drained) sm)
  give (iterated sm')

unfoldable pub many_devices : ℕ → ℕ → Flow Summary
many_devices parallel fuel =
    passes fuel (λ sm. make_many parallel [] sm >>= λ out. close_many out.0 out.1) no_summary

-- The stressors of `main`, in its order.
abbrev pub stressors : ℕ → ℕ → ℕ → List (Flow Summary)
stressors workers parallel fuel =
    churn fuel
    ∷ io_while_close workers fuel
    ∷ concurrent_close workers fuel
    ∷ many_devices parallel fuel
    ∷ []

-- Its loop, which skips what is left once the program is interrupted.
unfoldable pub if_running : Flow Summary → Bool → Flow (List Summary)
if_running s false = give []
if_running s true = do sm ← s; give (sm ∷ [])

unfoldable pub each_stressor : List (Flow Summary) → Flow (List Summary)
each_stressor [] = give []
each_stressor (s ∷ ss) = do
  running ← reads (λ o t. o.in_time t)
  done ← if_running s running
  rest ← each_stressor ss
  give (done ++ rest)

abbrev total_close : List Summary → ℕ
total_close [] = 0
total_close (sm ∷ sms) = sm.close_errs + total_close sms

-- `main`: the number of errors that it warns of.
unfoldable pub stress_main : ℕ → ℕ → ℕ → Flow ℕ
stress_main workers parallel fuel = do
  summaries ← each_stressor (stressors workers parallel fuel)
  give (total_close summaries)
