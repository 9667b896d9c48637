-- ===== src/Types/Layout.antt =====
-- Sizes and round trips of the structures in memory.
use native.Mathlib.Nat.{suc-add}
use ublk_go.Prelude.{
  ℕ, zero, suc, ◌+◌, ◌*◌, ◌^◌, ◌<◌, ◌≡◌, refl, ap, ◌∙◌, List, [], ◌∷◌, ◌++◌, arith, length, drop,
  length-append, get_elem?, some,
}
use ublk_go.Types.Bytes.{le_bytes, from_le-le_bytes}
use ublk_go.Types.{
  CtrlCmd, IoCmd, IoDesc, ctrl_cmd_bytes, io_cmd_bytes, io_desc_bytes, read_io_desc, sizeof_io_desc,
}

-- The bounds that the types of the fields give.
pub record IsTyped (d : IoDesc) : Type 0 where
  pub op_typed : d.op_flags < 2 ^ 32
  pub nr_typed : d.nr_sectors < 2 ^ 32
  pub start_typed : d.start_sector < 2 ^ 64
  pub addr_typed : d.addr < 2 ^ 64

pub length-ctrl_cmd_bytes : (c : CtrlCmd) → length (ctrl_cmd_bytes c) ≡ 32
unfolding ctrl_cmd_bytes
length-ctrl_cmd_bytes c = refl

pub length-io_cmd_bytes : (c : IoCmd) → length (io_cmd_bytes c) ≡ 16
unfolding io_cmd_bytes
length-io_cmd_bytes c = refl

pub length-io_desc_bytes : (d : IoDesc) → length (io_desc_bytes d) ≡ sizeof_io_desc
unfolding io_desc_bytes
length-io_desc_bytes d = refl

-- A descriptor is read back from its bytes, whatever follows them.
pub read_io_desc-bytes :
    (d : IoDesc) (rest : List ℕ) → IsTyped d → read_io_desc (io_desc_bytes d ++ rest) ≡ d
unfolding read_io_desc io_desc_bytes
read_io_desc-bytes d rest t = λ i. record {
  op_flags = from_le-le_bytes 4 d.op_flags after_op t.op_typed i;
  nr_sectors = from_le-le_bytes 4 d.nr_sectors after_nr t.nr_typed i;
  start_sector = from_le-le_bytes 8 d.start_sector after_start t.start_typed i;
  addr = from_le-le_bytes 8 d.addr rest t.addr_typed i;
}
  where
    after_start : List ℕ
    after_start = le_bytes 8 d.addr ++ rest

    after_nr : List ℕ
    after_nr = le_bytes 8 d.start_sector ++ after_start

    after_op : List ℕ
    after_op = le_bytes 4 d.nr_sectors ++ after_nr

-- The mapped descriptor area: the descriptors of the queue, one after the other.
unfoldable pub desc_area : List IoDesc → List ℕ
desc_area [] = []
desc_area (d ∷ ds) = io_desc_bytes d ++ desc_area ds

pub length-desc_area : (ds : List IoDesc) → length (desc_area ds) ≡ length ds * sizeof_io_desc
unfolding desc_area
length-desc_area [] = refl
length-desc_area (d ∷ ds) =
    length-append (io_desc_bytes d) (desc_area ds)
    ∙ omega (arith, length-io_desc_bytes d, length-desc_area ds)

drop-append : (xs ys : List ℕ) (n : ℕ) → drop (length xs + n) (xs ++ ys) ≡ drop n ys
drop-append [] ys n = ap (λ (m : ℕ). drop m ys) (omega arith)
drop-append (x ∷ xs) ys n =
    ap (λ (m : ℕ). drop m (x ∷ xs ++ ys)) (suc-add (length xs) n) ∙ drop-append xs ys n

-- Dropping whole descriptors leaves the ones that follow.
pub read-desc_area :
    (ds : List IoDesc) (tag : ℕ) {d : IoDesc}
    → get_elem? ds tag ≡ some d
    → IsTyped d
    → read_io_desc (drop (tag * sizeof_io_desc) (desc_area ds)) ≡ d
unfolding desc_area
read-desc_area [] tag e t = cc
read-desc_area (x ∷ ds) zero {d} e t =
    ap (λ (y : IoDesc). read_io_desc (io_desc_bytes y ++ desc_area ds)) first
    ∙ read_io_desc-bytes d (desc_area ds) t
  where
    first : x ≡ d
    first = cc
read-desc_area (x ∷ ds) (suc tag) {d} e t =
    ap (λ (m : ℕ). read_io_desc (drop m (io_desc_bytes x ++ desc_area ds))) step
    ∙ ap read_io_desc (drop-append (io_desc_bytes x) (desc_area ds) (tag * sizeof_io_desc))
    ∙ read-desc_area ds tag e t
  where
    step : suc tag * sizeof_io_desc ≡ length (io_desc_bytes x) + tag * sizeof_io_desc
    step = omega (arith, length-io_desc_bytes x)
