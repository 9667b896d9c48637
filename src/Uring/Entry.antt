-- ===== src/Uring/Entry.antt =====
-- The entries of the two rings of ublk/uring/uring.go: `SQE128`, `SQE64` and `CQE`.
use ublk_go.Prelude.{ℕ, List, replicate}
use ublk_go.Prelude.Int.{ℤ, pos}

abbrev pub op_uring_cmd : ℕ
op_uring_cmd = 46

-- `SQE128` and `SQE64` have the same fields; `cmd` holds 80 bytes in the one and 16 in the other.
pub record Sqe : Type 0 where
  pub opcode : ℕ  -- uint8
  pub flags : ℕ  -- uint8
  pub ioprio : ℕ  -- uint16
  pub fd : ℤ  -- int32
  pub off : ℕ  -- uint64
  pub addr : ℕ  -- uint64
  pub len : ℕ  -- uint32
  pub op_flags : ℕ  -- uint32
  pub user_data : ℕ  -- uint64
  pub buf_index : ℕ  -- uint16
  pub personality : ℕ  -- uint16
  pub splice_fd_in : ℤ  -- int32
  pub cmd : List ℕ

-- `SQE128{}` and `SQE64{}`, by the number of bytes in `cmd`.
abbrev pub zero_sqe : ℕ → Sqe
zero_sqe n = record {
  opcode = 0;
  flags = 0;
  ioprio = 0;
  fd = pos 0;
  off = 0;
  addr = 0;
  len = 0;
  op_flags = 0;
  user_data = 0;
  buf_index = 0;
  personality = 0;
  splice_fd_in = pos 0;
  cmd = replicate n 0;
}

abbrev pub sqe128_cmd : ℕ
sqe128_cmd = 80

abbrev pub sqe64_cmd : ℕ
sqe64_cmd = 16

pub record Cqe : Type 0 where
  pub user_data : ℕ  -- uint64
  pub res : ℤ  -- int32
  pub flags : ℕ  -- uint32

abbrev pub zero_cqe : Cqe
zero_cqe = record { user_data = 0; res = pos 0; flags = 0 }
