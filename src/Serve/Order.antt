-- ===== src/Serve/Order.antt =====
-- What the inner loop of `run` promises: completions are served one after the other, in the order
-- in which they came.
use ublk_go.Prelude.{ℕ, ◌*◌, ◌++◌, length, ◌<◌, ◌≡◌, false, List, [], ◌∷◌, some}
use ublk_go.Prelude.Int.{ℤ, is_neg}
use ublk_go.Go.Words.{u16}
use ublk_go.Types.{u_io_commit_and_fetch_req}
use ublk_go.Storage.{Backend}
use ublk_go.Uring.Entry.{Sqe, Cqe}
use ublk_go.Worker.{Worker, handle_io}
use ublk_go.Types.{sizeof_io_desc}
use ublk_go.Worker.Valid as Work
use ublk_go.Serve.{Memory, written, Meanwhile}
use ublk_go.Serve.Command.{command_sqe, buffer_at}

-- The entry that commits a result for a tag and fetches its next request.
abbrev pub commit_sqe : ℤ → Worker → ℕ → ℤ → Sqe
commit_sqe fd w tag result = command_sqe u_io_commit_and_fetch_req fd w tag result (buffer_at w tag)

-- The completions `cs`, served in order from `w` and `s` on, with what the kernel has written by the
-- time that each was served, give the entries `es` and leave `w'`
-- and `s'`: each request is handled once, and its own answer is committed for its own tag.
pub data Serves {S : Type 0} (b : Backend S) (fd : ℤ)
    : Worker → S → List Cqe → List Memory → List Sqe → Worker → S → Type 0 where
  served_none : (w : Worker) (s : S) → Serves b fd w s [] [] [] w s
  served_one :
      {w w1 w' : Worker} {s s1 s' : S} {c : Cqe} {cs : List Cqe} {r : ℤ} {m : Memory}
      {ms : List Memory} {es : List Sqe}
      → handle_io b w (u16 c.user_data) s ≡ some (r, w1, s1)
      → Serves b fd (written m w1) s1 cs ms es w' s'
      → Serves b fd w s (c ∷ cs) (m ∷ ms) (commit_sqe fd w1 (u16 c.user_data) r ∷ es) w' s'

-- A completion without an error, for a tag of the queue.
pub record IsRequest (depth : ℕ) (c : Cqe) : Type 0 where
  pub fine : is_neg c.res ≡ false
  pub listed : u16 c.user_data < depth

abbrev pub AllRequests : ℕ → List Cqe → Type 0
AllRequests depth [] = Unit
AllRequests depth (c ∷ cs) = IsRequest depth c × AllRequests depth cs

-- What was posted, and what was written.
abbrev pub all_posts : List Meanwhile → List Cqe
all_posts [] = []
all_posts (m ∷ ms) = m.posted ++ all_posts ms

abbrev pub memories : List Meanwhile → List Memory
memories [] = []
memories (m ∷ ms) = m.memory ∷ memories ms

-- The mapped area and the pool keep their sizes.
pub record IsSized (depth buf_size : ℕ) (m : Memory) : Type 0 where
  pub area : length m.descs ≡ depth * sizeof_io_desc
  pub buffers : length m.pool ≡ depth * buf_size

abbrev pub AllSized : ℕ → ℕ → List Meanwhile → Type 0
AllSized depth buf_size [] = Unit
AllSized depth buf_size (m ∷ ms) = IsSized depth buf_size m.memory × AllSized depth buf_size ms

pub written-IsValid :
    (m : Memory) (w : Worker)
    → Work.IsValid w
    → IsSized w.depth w.buf_size m
    → Work.IsValid (written m w)
written-IsValid m w v sized = record {
  deep = v.deep;
  descs_all = sized.area;
  pool_all = sized.buffers;
  bufs_all = v.bufs_all;
}
