-- ===== src/Serve/Tags/History.antt =====
-- The requests that a queue in motion has served, and what a device of bytes promises of them.
use ublk_go.Prelude.{ℕ, ◌*◌, ◌≡◌, List, [], ◌∷◌, ◌++◌, drop}
use ublk_go.Prelude.Memory.{stretch}
use ublk_go.Go.Words.{u16}
use ublk_go.Types.{IoDesc, read_io_desc, sizeof_io_desc}
use ublk_go.Storage.{Backend}
use ublk_go.Uring.Sq.Valid as Sub
use ublk_go.Worker.Disk.{IsDisk}
use ublk_go.Worker.Spec.{long_of, Outcome, disk_step, is_some, Allowed}
use ublk_go.Worker.Refine.{first_bytes}
use ublk_go.Serve.{Serving}
use ublk_go.Serve.Order.{commit_sqe}
use ublk_go.Serve.Tags.{Queue, Step, serves, flushes, takes, completes, Reach, here, later}

-- A round of the inner loop of `run`: the tag that it served, and the state before and after.
pub record Round (S : Type 0) : Type 0 where
  pub tag : ℕ
  pub before : Serving S
  pub after : Serving S

module _ {S : Type 0} {b : Backend S} where
  abbrev pub round_of : {q q' : Queue S} → Step b q q' → List (Round S)
  round_of {q} (serves {c} {v} _ _) =
      record { tag = u16 c.user_data; before = q.serving; after = v } ∷ []
  round_of flushes = []
  round_of (takes _) = []
  round_of (completes _ _ _ _ _ _ _ _) = []

  -- Newest first.
  abbrev pub history : {q₀ q : Queue S} → Reach b q₀ q → List (Round S)
  history here = []
  history (later r st) = round_of st ++ history r

-- What the descriptor area says of the request when it is served.
abbrev pub request_of : {S : Type 0} → Round S → IoDesc
request_of e = read_io_desc (drop (e.tag * sizeof_io_desc) e.before.worker.descs)

-- The first bytes of the buffer of the round's tag.
abbrev pub sent : {S : Type 0} → Round S → List ℕ
sent e = first_bytes e.before.worker e.tag (long_of (request_of e))

abbrev pub returned : {S : Type 0} → Round S → List ℕ
returned e = stretch (e.tag * e.before.worker.buf_size) (long_of (request_of e)) e.after.worker.pool

module _ {S : Type 0} (b : Backend S) where
  -- What the device promises of the round on the bytes `m`.
  abbrev pub promised : Round S → List ℕ → Outcome
  promised e m = disk_step e.before.worker.buf_size (is_some b.zeroer) (request_of e) (sent e) m

  -- The bytes of the device after the rounds, from `m` on.
  abbrev pub bytes_after : List (Round S) → List ℕ → List ℕ
  bytes_after [] m = m
  bytes_after (e ∷ es) m = (promised e (bytes_after es m)).bytes

  abbrev pub AllAllowed : (size : ℕ) → IsDisk b size → List (Round S) → Type 0
  AllAllowed size d [] = Unit
  AllAllowed size d (e ∷ es) = Allowed b size d (request_of e) × AllAllowed size d es

  -- A round on the bytes `m`: the buffer of its tag holds what is promised, and the entry that commits
  -- the promised answer for the tag was queued.
  pub record IsRight (k : ℕ) (e : Round S) (m : List ℕ) : Type 0 where
    pub buffer : returned e ≡ (promised e m).held
    pub committed :
        Sub.pending_sqes k e.after.sq
        ≡ Sub.pending_sqes k e.before.sq
          ++ commit_sqe e.before.char_fd e.after.worker e.tag (promised e m).answer ∷ []

  -- A history that a device with the bytes `m` at its start may have, request by request.
  abbrev pub IsLegal : ℕ → List (Round S) → List ℕ → Type 0
  IsLegal k [] m = Unit
  IsLegal k (e ∷ es) m = IsRight k e (bytes_after es m) × IsLegal k es m
