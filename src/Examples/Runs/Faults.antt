-- ===== src/Examples/Runs/Faults.antt =====
-- The scenarios of example/fault/main.go.
use ublk_go.Prelude.{
  ℕ, zero, suc, ◌+◌, ◌-◌, ◌*◌, ◌/◌, ◌%◌, Bool, Option, none, some, ltb, ◌==◌, if◌then◌else◌,
}
use ublk_go.Examples.Fault.{dev_size, blk_size}
use ublk_go.Examples.Runs.{
  Flow, ◌>>=◌, ◌>>◌, give, Transfer, pread, pwrite, transfer, reads, new_device, shut_device,
  with_device, with_node,
}

pub data FaultError : Type 0 where
  no_device : FaultError
  no_node : FaultError
  few_writes : FaultError
  none_injected : FaultError
  swallowed : FaultError
  some_succeeded : FaultError
  close_failed : FaultError
  close_hung : FaultError

abbrev one_more : ℕ → Option ℕ → ℕ
one_more errs none = errs + 1
one_more errs (some _) = errs

-- The loop of a scenario's transfers, from `i` on with `n` left: how many of them failed.
unfoldable pub attempt_loop : Transfer → (ℕ → ℕ) → ℕ → ℕ → ℕ → ℕ → Flow ℕ
attempt_loop c offset zero i d errs = give errs
attempt_loop c offset (suc n) i d errs = do
  r ← transfer c d (offset i) blk_size
  attempt_loop c offset n (i + 1) d (one_more errs r)

abbrev pub low_rate_offset : ℕ → ℕ
low_rate_offset i = i % ((dev_size - blk_size) / blk_size) * blk_size

abbrev pub at_start : ℕ → ℕ
at_start i = 0

abbrev low_rate_result : ℕ → ℕ → ℕ → Option FaultError
low_rate_result errs writes injected =
    if ltb writes 200
    then some few_writes
    else if injected == 0
    then some none_injected
    else if errs == 0
    then some swallowed
    else none

unfoldable pub low_rate : Flow (Option FaultError)
low_rate = with_device (some no_device) (λ d. with_node (some no_node) d (do
  errs ← attempt_loop pwrite low_rate_offset 200 0 d 0
  writes ← reads (λ o t. o.counted t)
  injected ← reads (λ o t. o.counted t)
  give (low_rate_result errs writes injected)))

abbrev total_result : ℕ → Option FaultError
total_result errs = if ltb errs 5 then some some_succeeded else none

unfoldable pub total_write_fail : Flow (Option FaultError)
total_write_fail = with_device (some no_device) (λ d.
    with_node (some no_node) d
      (do errs ← attempt_loop pwrite at_start 5 0 d 0; give (total_result errs)))

unfoldable pub total_read_fail : Flow (Option FaultError)
total_read_fail = with_device (some no_device) (λ d.
    with_node (some no_node) d
      (do errs ← attempt_loop pread at_start 5 0 d 0; give (total_result errs)))

-- What `closeWithErrors` returns: the error of the open, or what became of `Close`.
abbrev closing_result : Option FaultError → Bool → Bool → Option FaultError
closing_result (some e) failed in_time = some e
closing_result none failed in_time =
    if in_time then (if failed then some close_failed else none) else some close_hung

-- `Close` is called on both paths: after an error of the open, and after the descriptor is closed.
unfoldable pub close_after : Option ℕ → Flow (Option FaultError)
close_after none = give (some no_device)
close_after (some d) = do
  r ← with_node (some no_node) d (attempt_loop pwrite at_start 10 0 d 0 >> give none)
  failed ← shut_device d
  in_time ← reads (λ o t. o.in_time t)
  give (closing_result r failed in_time)

unfoldable pub close_with_errors : Flow (Option FaultError)
close_with_errors = new_device >>= close_after
