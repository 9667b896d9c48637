-- ===== src/Serve/Tags.antt =====
-- One queue of a device in motion: the worker of ublk/worker.go and the kernel take turns in any
-- order, and each tag of the queue is at one place.
pub mod Count
pub mod Moves
pub mod Safety
pub mod History
pub mod Disk
pub mod Taking
use ublk_go.Prelude.{ℕ, ◌+◌, ◌<◌, ◌≡◌, ◌≢◌, List, [], ◌∷◌, ◌++◌, some, length}
use ublk_go.Storage.{Backend}
use ublk_go.Uring.Entry.{Sqe, Cqe}
use ublk_go.Uring.Sq.{Sq, flush_sq, front_sqe, take_sqe}
use ublk_go.Uring.Sq.Valid.{unread}
use ublk_go.Uring.Cq.{Cq, peek_cqe, post}
use ublk_go.Serve.{Serving, next, serve_one}

-- The worker's side, and the tags that the kernel has fetched and not yet completed.
pub record Queue (S : Type 0) : Type 0 where
  pub serving : Serving S
  pub held : List ℕ

abbrev pub with_sq : {S : Type 0} → Sq → Serving S → Serving S
with_sq sq v = record v { sq = sq }

-- A completion arrives: the kernel has written the descriptor area and the buffers, and posts it.
abbrev pub arrived : {S : Type 0} → List ℕ → List ℕ → Cqe → Serving S → Serving S
arrived descs pool c v = record v {
  worker = record v.worker { descs = descs; pool = pool };
  cq = post c v.cq;
}

module _ {S : Type 0} (b : Backend S) where
  -- `serves` is one round of the inner loop of `run` that goes on; `flushes` the part of `Submit`
  -- before io_uring_enter. The kernel takes an entry (`takes`), also while none of the code runs, and
  -- completes a tag that it holds (`completes`), with any result.
  pub data Step (q : Queue S) : Queue S → Type 0 where
    serves :
        {c : Cqe} {v : Serving S}
        → peek_cqe q.serving.cq ≡ some c
        → serve_one b c q.serving ≡ some (next v)
        → Step q (record q { serving = v })
    flushes : Step q (record q { serving = with_sq (flush_sq q.serving.sq).1 q.serving })
    takes :
        unread q.serving.sq ≢ 0
        → Step q (record {
          serving = with_sq (take_sqe q.serving.sq) q.serving;
          held = (front_sqe q.serving.sq).user_data ∷ q.held;
        })
    completes :
        (before after : List ℕ) (c : Cqe) (descs pool : List ℕ)
        → q.held ≡ before ++ c.user_data ∷ after
        → length descs ≡ length q.serving.worker.descs
        → length pool ≡ length q.serving.worker.pool
        → Step q (record { serving = arrived descs pool c q.serving; held = before ++ after })

  pub data Reach (q₀ : Queue S) : Queue S → Type 0 where
    here : Reach q₀ q₀
    later : {q q' : Queue S} → Reach q₀ q → Step q q' → Reach q₀ q'

-- The tags of entries and of completions.
abbrev pub sqe_tags : List Sqe → List ℕ
sqe_tags [] = []
sqe_tags (e ∷ es) = e.user_data ∷ sqe_tags es

abbrev pub cqe_tags : List Cqe → List ℕ
cqe_tags [] = []
cqe_tags (c ∷ cs) = c.user_data ∷ cqe_tags cs
