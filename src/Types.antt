-- ===== src/Types.antt =====
-- ublk/types.go: the command codes and the structures shared with the kernel, as records and as the
-- bytes that `unsafe.Pointer` casts read and write (little-endian, as on amd64 and arm64).
pub mod Bytes
pub mod Layout
use ublk_go.Prelude.{ℕ, ◌*◌, ◌^◌, List, [], ◌∷◌, ◌++◌, replicate, drop}
use ublk_go.Prelude.Int.{ℤ}
use ublk_go.Go.Words.{word32}
use ublk_go.Types.Bytes.{le_bytes, from_le}

abbrev pub op_read : ℕ
op_read = 0

abbrev pub op_write : ℕ
op_write = 1

abbrev pub op_discard : ℕ
op_discard = 3

abbrev pub op_write_zeroes : ℕ
op_write_zeroes = 5

-- UBLK_IO_F_NOUNMAP
abbrev pub io_flag_no_unmap : ℕ
io_flag_no_unmap = 2 ^ 15

abbrev pub flag_cmd_ioctl_encode : ℕ
flag_cmd_ioctl_encode = 2 ^ 6

abbrev pub param_type_basic : ℕ
param_type_basic = 1

abbrev pub param_type_discard : ℕ
param_type_discard = 2

abbrev pub cmd_add_dev : ℕ
cmd_add_dev = 0x04

abbrev pub cmd_del_dev : ℕ
cmd_del_dev = 0x05

abbrev pub cmd_start_dev : ℕ
cmd_start_dev = 0x06

abbrev pub cmd_stop_dev : ℕ
cmd_stop_dev = 0x07

abbrev pub cmd_set_params : ℕ
cmd_set_params = 0x08

abbrev pub u_cmd_add_dev : ℕ
u_cmd_add_dev = 0xC0207504

abbrev pub u_cmd_del_dev : ℕ
u_cmd_del_dev = 0xC0207505

abbrev pub u_cmd_start_dev : ℕ
u_cmd_start_dev = 0xC0207506

abbrev pub u_cmd_stop_dev : ℕ
u_cmd_stop_dev = 0xC0207507

abbrev pub u_cmd_set_params : ℕ
u_cmd_set_params = 0xC0207508

abbrev pub u_io_fetch_req : ℕ
u_io_fetch_req = 0xC0107520

abbrev pub u_io_commit_and_fetch_req : ℕ
u_io_commit_and_fetch_req = 0xC0107521

pub record CtrlCmd : Type 0 where
  pub dev_id : ℕ  -- uint32
  pub queue_id : ℕ  -- uint16
  pub len : ℕ  -- uint16
  pub addr : ℕ  -- uint64
  pub payload : ℕ  -- Data [1]uint64
  pub dev_path_len : ℕ  -- uint16
  pub pad : ℕ  -- uint16
  pub reserved : ℕ  -- uint32

pub record DevInfo : Type 0 where
  pub nr_hw_queues : ℕ  -- uint16
  pub queue_depth : ℕ  -- uint16
  pub state : ℕ  -- uint16
  pub pad0 : ℕ  -- uint16
  pub max_io_buf_bytes : ℕ  -- uint32
  pub dev_id : ℕ  -- uint32
  pub ublksrv_pid : ℤ  -- int32
  pub pad1 : ℕ  -- uint32
  pub flags : ℕ  -- uint64
  pub ublksrv_flags : ℕ  -- uint64
  pub owner_uid : ℕ  -- uint32
  pub owner_gid : ℕ  -- uint32
  pub reserved1 : ℕ  -- uint64
  pub reserved2 : ℕ  -- uint64

pub record IoCmd : Type 0 where
  pub qid : ℕ  -- uint16
  pub tag : ℕ  -- uint16
  pub result : ℤ  -- int32
  pub addr : ℕ  -- uint64

pub record IoDesc : Type 0 where
  pub op_flags : ℕ  -- uint32
  pub nr_sectors : ℕ  -- uint32
  pub start_sector : ℕ  -- uint64
  pub addr : ℕ  -- uint64

pub record ParamBasic : Type 0 where
  pub attrs : ℕ  -- uint32
  pub logical_bs_shift : ℕ  -- uint8
  pub physical_bs_shift : ℕ  -- uint8
  pub io_opt_shift : ℕ  -- uint8
  pub io_min_shift : ℕ  -- uint8
  pub max_sectors : ℕ  -- uint32
  pub chunk_sectors : ℕ  -- uint32
  pub dev_sectors : ℕ  -- uint64
  pub virt_boundary_mask : ℕ  -- uint64

pub record ParamDiscard : Type 0 where
  pub discard_alignment : ℕ  -- uint32
  pub discard_granularity : ℕ  -- uint32
  pub max_discard_sectors : ℕ  -- uint32
  pub max_write_zeroes_sectors : ℕ  -- uint32
  pub max_discard_segments : ℕ  -- uint16
  pub reserved0 : ℕ  -- uint16

pub record ParamDevt : Type 0 where
  pub char_major : ℕ  -- uint32
  pub char_minor : ℕ  -- uint32
  pub disk_major : ℕ  -- uint32
  pub disk_minor : ℕ  -- uint32

pub record ParamZoned : Type 0 where
  pub max_open_zones : ℕ  -- uint32
  pub max_active_zones : ℕ  -- uint32
  pub max_zone_append_sectors : ℕ  -- uint32
  pub reserved : List ℕ  -- [20]uint8

pub record UblkParams : Type 0 where
  pub len : ℕ  -- uint32
  pub types : ℕ  -- uint32
  pub basic : ParamBasic
  pub discard : ParamDiscard
  pub devt : ParamDevt
  pub zoned : ParamZoned

-- The structures in memory, field after field; none has padding between its fields.
unfoldable pub ctrl_cmd_bytes : CtrlCmd → List ℕ
unfolding le_bytes
ctrl_cmd_bytes c =
    le_bytes 4 c.dev_id
    ++ (le_bytes 2 c.queue_id
        ++ (le_bytes 2 c.len
            ++ (le_bytes 8 c.addr
                ++ (le_bytes 8 c.payload
                    ++ (le_bytes 2 c.dev_path_len
                        ++ (le_bytes 2 c.pad ++ le_bytes 4 c.reserved))))))

unfoldable pub io_cmd_bytes : IoCmd → List ℕ
unfolding le_bytes
io_cmd_bytes c =
    le_bytes 2 c.qid ++ (le_bytes 2 c.tag ++ (le_bytes 4 (word32 c.result) ++ le_bytes 8 c.addr))

unfoldable pub io_desc_bytes : IoDesc → List ℕ
unfolding le_bytes
io_desc_bytes d =
    le_bytes 4 d.op_flags
    ++ (le_bytes 4 d.nr_sectors ++ (le_bytes 8 d.start_sector ++ le_bytes 8 d.addr))

-- `*(*ioDesc)(unsafe.Pointer(&b[0]))`
unfoldable pub read_io_desc : List ℕ → IoDesc
unfolding from_le
read_io_desc bs = record {
  op_flags = from_le 4 bs;
  nr_sectors = from_le 4 (drop 4 bs);
  start_sector = from_le 8 (drop 8 bs);
  addr = from_le 8 (drop 16 bs);
}

abbrev pub sizeof_io_desc : ℕ
sizeof_io_desc = 24

abbrev pub sizeof_dev_info : ℕ
sizeof_dev_info = 64
