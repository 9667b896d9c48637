-- ===== src/Examples/Contract.antt =====
-- The contract of a backend of `size` bytes, for backends that may panic.
use ublk_go.Prelude.{ℕ, ◌+◌, ◌≤◌, ◌≡◌, ap, ◌∙◌, List, some, length, arith}
use ublk_go.Prelude.Int.{ℤ, pos}
use ublk_go.Prelude.Memory.{stretch, overwrite}
use ublk_go.Storage.{Backend, Reply, ReadReply}
use ublk_go.Worker.Disk.{IsDisk, IsEofless}
use ublk_go.Examples.{PartialBackend, range_of, copy_out, copy_in, transferred}

module _ {S : Type 0} (p : PartialBackend S) where
  -- A backend that does what the methods do where they return.
  pub record Agrees (b : Backend S) : Type 0 where
    pub read_same :
        (n : ℕ) (off : ℤ) (s : S) (r : ReadReply S)
        → p.read_at n off s ≡ some r
        → b.read_at n off s ≡ r
    pub write_same :
        (bs : List ℕ) (off : ℤ) (s : S) (r : Reply S)
        → p.write_at bs off s ≡ some r
        → b.write_at bs off s ≡ r

module _ {S : Type 0} (p : PartialBackend S) (content : S → List ℕ) where
  -- A backend whose bytes are `content`: within the size no call panics, the whole length is transferred without an error, a read
  -- changes nothing, and a write changes the range that it names.
  pub record IsPartialDisk (size : ℕ) : Type 0 where
    pub reads :
        (n o : ℕ) (s : S)
        → length (content s) ≡ size
        → o + n ≤ size
        → (s' : S) × (p.read_at n (pos o) s
            ≡ some (record { reply = transferred n s'; filled = stretch o n (content s) }))
          × (content s' ≡ content s)
    pub writes :
        (n o : ℕ) (bs : List ℕ) (s : S)
        → length (content s) ≡ size
        → length bs ≡ n
        → o + n ≤ size
        → (s' : S) × (p.write_at bs (pos o) s ≡ some (transferred n s'))
          × (content s' ≡ overwrite o n bs (content s))

  unfoldable pub agreed_disk :
      (b : Backend S) (size : ℕ) → Agrees p b → IsPartialDisk size → IsDisk b size
  agreed_disk b size a d = record {
    content = content;
    reads = λ n o s full inside.
        let (s', returns, same) = d.reads n o s full inside in
        let now = a.read_same n (pos o) s _ returns in
        (
          ap (λ (r : ReadReply S). r.reply.count) now,
          (λ _. ap (λ (r : ReadReply S). r.reply.failed) now),
          ap (λ (r : ReadReply S). r.filled) now,
          ap (λ (r : ReadReply S). content r.reply.after) now ∙ same,
        );
    writes = λ n o bs s full long inside.
        let (s', returns, changed) = d.writes n o bs s full long inside in
        let now = a.write_same bs (pos o) s _ returns in
        (
          ap (λ (r : Reply S). r.count) now,
          ap (λ (r : Reply S). r.failed) now,
          ap (λ (r : Reply S). content r.after) now ∙ changed,
        );
  }

  -- Such a backend returns no io.EOF.
  pub agreed-IsEofless :
      (b : Backend S) (size : ℕ) (a : Agrees p b) (d : IsPartialDisk size)
      → IsEofless b size (agreed_disk b size a d)
  unfolding agreed_disk
  agreed-IsEofless b size a d = record {
    at_end = λ n o s full end.
        let (s', returns, same) = d.reads n o s full (omega (arith, end)) in
        ap (λ (r : ReadReply S). r.reply.failed) (a.read_same n (pos o) s _ returns);
  }

-- Inside the data the slice expressions do not panic.
pub copy_out-inside :
    (bytes : List ℕ) (o n : ℕ)
    → o + n ≤ length bytes
    → copy_out bytes (pos o) n ≡ some (stretch o n bytes)
unfolding copy_out range_of
copy_out-inside bytes o n inside = ground arith

pub copy_in-inside :
    (bytes bs : List ℕ) (o n : ℕ)
    → length bs ≡ n
    → o + n ≤ length bytes
    → copy_in bytes bs (pos o) ≡ some (overwrite o n bs bytes)
unfolding copy_in range_of
copy_in-inside bytes bs o n long inside = rw long (ground arith)
