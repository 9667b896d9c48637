-- ===== src/Serve/Run.antt =====
-- The outer loop of `run` in ublk/worker.go: wait for a completion, serve what is there, submit.
pub mod Passes
pub mod Rounds
use ublk_go.Prelude.{ℕ, ◌+◌, List, [], ◌∷◌, Option, none, some, ◌==◌, if◌then◌else◌}
use ublk_go.Go.Words.{u32}
use ublk_go.System.{Ret, fine, fail, keep}
use ublk_go.Storage.{Backend}
use ublk_go.Uring.Entry.{Cqe}
use ublk_go.Uring.Sq.{Sq, flush_sq, consume}
use ublk_go.Uring.Cq.{Cq, Wake, WaitResult, completion, err_cancelled, err_epoll, blocked, wait_cqe}
use ublk_go.Serve.{
  Memory, written, Meanwhile, Serving, Drained, empty, stopped, unfinished, drain, ◌>>=◌,
}

-- What happens during one pass: while WaitCQE blocks, what the kernel has written when it returns, what
-- happens while each request is served, and what io_uring_enter returns for a count.
pub record Pass : Type 0 where
  pub wakes : List Wake
  pub memory : Memory
  pub posts : List Meanwhile
  pub enters : ℕ → Ret ℕ

-- How a pass ends: with the next one, by returning from `run`, or not within the events given.
pub data Going (S : Type 0) : Type 0 where
  on : Serving S → Going S
  off : Serving S → Going S
  stuck : Serving S → Going S

unfoldable pub after_flush : (ℕ → Ret ℕ) → ℕ × Sq → Ret ℕ × Sq
after_flush enters (count, r) =
    if count == 0 then (fine 0, r) else let x = enters count in (x, keep consume x r)

-- `Submit`, on the queue alone.
unfoldable pub submit_queue : (ℕ → Ret ℕ) → Sq → Ret ℕ × Sq
submit_queue enters r = after_flush enters (flush_sq r)

unfoldable pub submitted : {S : Type 0} → Serving S → Ret ℕ × Sq → Going S
submitted v (fine n, r) = on (record v { sq = r })
submitted v (fail e, r) = off (record v { sq = r })

unfoldable pub drained : {S : Type 0} → Pass → Drained S → Going S
drained p (empty v) = submitted v (submit_queue p.enters v.sq)
drained p (stopped v) = off v
drained p (unfinished v) = stuck v

module _ {S : Type 0} (b : Backend S) where
  unfoldable pub waited : Pass → Serving S → WaitResult × Cq → Option (Going S)
  waited p v (completion c, cq) =
      drain b p.posts c (record v { worker = written p.memory v.worker; cq = cq }) >>= λ d.
      some (drained p d)
  waited p v (err_cancelled, cq) = some (off (record v { cq = cq }))
  waited p v (err_epoll e, cq) = some (off (record v { cq = cq }))
  waited p v (blocked, cq) = some (stuck (record v { cq = cq }))

  unfoldable pub run_pass : Pass → Serving S → Option (Going S)
  run_pass p v = waited p v (wait_cqe p.wakes v.cq)

  unfoldable pub next_pass : (Serving S → Option (Going S)) → Going S → Option (Going S)
  next_pass go (on v) = go v
  next_pass go (off v) = some (off v)
  next_pass go (stuck v) = some (stuck v)

  unfoldable pub run_loop : List Pass → Serving S → Option (Going S)
  run_loop [] v = some (on v)
  run_loop (p ∷ ps) v = run_pass p v >>= next_pass (run_loop ps)
