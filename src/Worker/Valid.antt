-- ===== src/Worker/Valid.antt =====
-- The representation invariant of a worker between two requests.
use ublk_go.Prelude.{
  ℕ, ◌*◌, ◌≤◌, ◌<◌, ◌≡◌, ◌∙◌, ap, List, some, arith, length, get_elem?, drop, lt→ltb,
  lt_of_get_elem?,
}
use ublk_go.Prelude.Memory.{overwrite, length-overwrite}
use ublk_go.Types.{IoDesc, sizeof_io_desc, read_io_desc}
use ublk_go.Types.Layout.{desc_area, length-desc_area, read-desc_area, IsTyped}
use ublk_go.Config.{max_queue_depth}
use ublk_go.Worker.Buffers.{Slice, reslice}
use ublk_go.Worker.{Worker, get_desc, buffer}

pub record IsValid (w : Worker) : Type 0 where
  pub deep : w.depth ≤ max_queue_depth
  pub descs_all : length w.descs ≡ w.depth * sizeof_io_desc
  pub pool_all : length w.pool ≡ w.depth * w.buf_size
  pub bufs_all :
      (tag : ℕ)
      → tag < w.depth
      → (s : Slice) × (get_elem? w.bufs tag ≡ some s)
        × (s.start ≡ tag * w.buf_size)
        × (w.buf_size ≤ s.cap)

-- A descriptor below the queue's depth is read without a panic.
pub get_desc-some :
    (w : Worker) (tag : ℕ)
    → IsValid w
    → tag < w.depth
    → get_desc w tag ≡ some (read_io_desc (drop (tag * sizeof_io_desc) w.descs))
unfolding get_desc
get_desc-some w tag v lt = ground (arith, v.descs_all)

-- If the area holds the queue's descriptors, `getDesc` returns the one of the tag.
pub get_desc-desc_area :
    (w : Worker) (ds : List IoDesc) (tag : ℕ) {d : IoDesc}
    → w.descs ≡ desc_area ds
    → get_elem? ds tag ≡ some d
    → IsTyped d
    → get_desc w tag ≡ some d
unfolding get_desc
get_desc-desc_area w ds tag {d} area e t =
    rw (area, lt→ltb (tag * sizeof_io_desc) (length (desc_area ds)) inside)
      (ap some (read-desc_area ds tag e t))
  where
    inside : tag * sizeof_io_desc < length (desc_area ds)
    inside = omega (arith, length-desc_area ds, lt_of_get_elem? ds tag e)

-- The slice of a request that fits its buffer.
pub buffer-some :
    (w : Worker) (tag n : ℕ)
    → IsValid w
    → tag < w.depth
    → n ≤ w.buf_size
    → (s : Slice) × (buffer w tag n ≡ some s) × (s.start ≡ tag * w.buf_size)
unfolding buffer reslice
buffer-some w tag n v lt fits =
    let (s, e, start, room) = v.bufs_all tag lt in
    (record s { len = n }, rw e (ground arith), start)

-- Filling a stretch of a buffer keeps the invariant.
pub overwrite-IsValid :
    (w : Worker) (start n : ℕ) (bs : List ℕ)
    → IsValid w
    → IsValid (record w { pool = overwrite start n bs w.pool })
overwrite-IsValid w start n bs v = record {
  deep = v.deep;
  descs_all = v.descs_all;
  pool_all = length-overwrite start n bs w.pool ∙ v.pool_all;
  bufs_all = v.bufs_all;
}
