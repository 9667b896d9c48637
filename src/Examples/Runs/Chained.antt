-- ===== src/Examples/Runs/Chained.antt =====
-- `runChain` of example/chain/main.go: a device over a device, and what is checked of both.
use ublk_go.Prelude.{
  ℕ, zero, suc, ◌+◌, ◌-◌, ◌*◌, ◌/◌, Bool, true, false, List, [], ◌∷◌, Option, none, some, ◌==◌,
  if◌then◌else◌,
}
use ublk_go.Examples.Chain.{chain_size, blk_size}
use ublk_go.Examples.Runs.{
  looked, cut, Flow, ◌>>=◌, give, Transfer, pread, pwrite, transfer, run_command, reads,
  with_device, with_node, checked,
}

-- Whether `n, err := …` ended with `err == nil` and `n` bytes.
abbrev pub is_whole : ℕ → Option ℕ → Bool
is_whole n none = false
is_whole n (some m) = m == n

-- A call on the proxy's node that must transfer all of its bytes.
unfoldable pub whole : Transfer → ℕ → ℕ → ℕ → Flow Bool
whole c proxy off n = do r ← transfer c proxy off n; give (is_whole n r)

-- Whether the pattern went through both devices, at the offset. The first call is `rand.Read`.
unfoldable pub roundtrip : ℕ → ℕ → ℕ → Flow Bool
roundtrip proxy off n = checked false run_command (
    checked false (whole pwrite proxy off n) (
      checked false (whole pread proxy off n)
        (checked false (reads (λ o t. o.holds_good t)) (reads (λ o t. o.holds_good t)))))

-- The loop of the interleaved roundtrips, from `i` on with `n` left.
unfoldable pub interleaved : ℕ → ℕ → ℕ → Flow Bool
interleaved zero i proxy = give true
interleaved (suc n) i proxy =
    checked false (roundtrip proxy (i * 2 * blk_size) blk_size) (interleaved n (i + 1) proxy)

pub data ChainError : Type 0 where
  no_storage : ChainError
  no_storage_node : ChainError
  no_proxy : ChainError
  no_proxy_node : ChainError
  step_failed : ChainError
  hung : ChainError  -- the panic of `runStep`

abbrev step_end : Bool → Option ChainError
step_end ok = if ok then none else some step_failed

-- A step that runs to its end, or is in the middle of its calls when the timeout comes. What its
-- goroutine still does after the panic, beside the deferred calls, is left out.
unfoldable pub run_step : Flow Bool → Flow (Option ChainError)
run_step step = λ w t.
    let (ok, t') = step w t in
    if w.in_time t' then (step_end ok, looked ∷ t') else (some hung, cut w t t')

-- The loop over the steps, which ends at the first error.
unfoldable pub or_next : Flow (Option ChainError) → Option ChainError → Flow (Option ChainError)
or_next rest none = rest
or_next rest (some e) = give (some e)

unfoldable pub each_step : List (Flow Bool) → Flow (Option ChainError)
each_step [] = give none
each_step (s ∷ ss) = run_step s >>= or_next (each_step ss)

-- The last step is `checkStats`.
abbrev pub chain_steps : ℕ → List (Flow Bool)
chain_steps proxy =
    roundtrip proxy 0 blk_size
    ∷ roundtrip proxy (chain_size / 2) blk_size
    ∷ roundtrip proxy (chain_size - blk_size) blk_size
    ∷ roundtrip proxy (2 * blk_size) (128 * 1024)
    ∷ interleaved 16 0 proxy
    ∷ reads (λ o t. o.holds_good t)
    ∷ []

unfoldable pub run_chain : Flow (Option ChainError)
run_chain = with_device (some no_storage) (λ storage. with_node (some no_storage_node) storage (
    with_device (some no_proxy)
      (λ proxy. with_node (some no_proxy_node) proxy (each_step (chain_steps proxy)))))
