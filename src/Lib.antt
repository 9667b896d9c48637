-- ===== src/Lib.antt =====
-- A model of ublk-go, a Go library for userspace block devices on Linux: a kernel block device
-- whose requests a Go backend answers, over io_uring. Paths below are from the root of the
-- repository.
--
-- The parts, and the files that model them:
--   Config         ublk/ublk.go: `config`, the options and `validate`; Config/Accepts says what is
--                  accepted without mentioning how it is tested.
--   Types          ublk/types.go: command codes and the structures shared with the kernel, with the
--                  bytes that casts through unsafe.Pointer read and write.
--   Storage        ublk/ublk.go: `Backend`, `Discarder`, `ZeroWriter`. A backend is the caller's
--                  code, so it is a parameter with a state of its own.
--   Uring          ublk/uring/uring.go. Sq is the submission queue (nextSQE, GetSQE64, GetSQE128,
--                  flushSQ), Cq the completion queue (PeekCQE, SeenCQE, WaitCQE, Cancel), Ring the
--                  life of a ring (setup, mmapRings, setupCancel, Submit, SubmitAndWait, Close).
--   Worker         ublk/worker.go: the buffers, getDesc and handleIO.
--   Serve          ublk/worker.go: prepareFetch, prepareCommitAndFetch, the loop of init, the
--                  inner loop of run, and in Serve/Run its outer loop (one pass, any number of
--                  passes). In Serve/Tags the worker and the kernel take turns in any order; its
--                  Safety says where each tag is, its Disk that the queue is a device of bytes as
--                  Worker/Spec describes one, without rings and descriptors.
--   System         the system calls: a kernel's answers are a parameter, and every call leaves an
--                  event in a log.
--   Device         ublk/device.go: Params and Control the commands, Opening the retries of
--                  openCharDev, Queue the worker that New makes, Life what New, shutdown and
--                  Close do, from isNilBackend on (Life/Refused), Life/Commands what New
--                  tells the kernel. Life/Begun joins a new device to Serve/Tags.
--   Examples       example/: the backends of the programs (Main, Sigkill, Stress, Chain, Fsdemo, Fault,
--                  Flushbench), in Runs what the programs do with devices, as trails of calls, and
--                  in Announce how the parent of sigkill learns its child's device. In
--                  Runs/Writers the writer goroutines of stress take turns with the program; a
--                  write begins in one turn and ends in another. A scenario of fault or a step of chain
--                  that hangs is in the middle of its calls when the program panics.
--   Go             the integers and math/bits of Go, Prelude what all parts share, Tests concrete
--                  runs.
--
-- How the parts interact: New checks the configuration, opens the control device and its ring,
-- sends ADD_DEV, opens the char device, sends the parameters, sets up the worker's ring and sends
-- START_DEV; an error on the way ends in shutdown. The worker takes completions from Cq, reads the
-- descriptor of the tag, calls the backend through handleIO, and queues the answer in Sq.
--
-- State: a word that the code shares with the kernel through mapped memory is a field of Sq or Cq,
-- and what the kernel does to it is explicit: the events given to WaitCQE and to the inner loop,
-- the count that io_uring_enter returns. A method of an object with an error is a function of the
-- kernel, the object and the log (`Act` of System). A descriptor field is `none` for -1, a mapping
-- `none` for nil. A run-time panic of the worker is `none`. On the control ring, what WaitCQE and
-- SeenCQE bring back is one answer of the kernel (`reap`); the code of both is in Uring/Cq.
--
-- Integers: uint32 indices wrap at 2^32 (`u32`, `sub_u32`); offsets are int64, answers int32
-- (`int64`, `to_int32`). Go's int is taken as 64 bits, and the structures as little-endian.
--
-- In Examples a method of a backend that panics is `none`, and a backend of the worker is any that
-- agrees with it where it returns (Examples/Contract). The answers to the programs' calls are a
-- parameter (`Outside` of Examples/Runs), and so is what a program then tests of its data, its
-- counters and its deadlines; each new device gets a number of its own.
--
-- Bounds: WaitCQE and the loops of run are given a list of events, one for each pass; a result of
-- their own (`blocked`, `unfinished`, `stuck`) says that the list did not do, and theorems say
-- when it does. The loops of flushSQ, allocBuffers and init recurse on what is left of their
-- count, openCharDev on its 50 passes; the stressors and waitGone on fuel, for the passes until
-- the deadline; the child of sigkill on the writes that it makes before it is killed.
--
-- Not modelled: messages of errors (an error is its number) and what the programs print but for
-- printSince, the pinning of memory, goroutine scheduling beyond what other goroutines do to a
-- ring while WaitCQE blocks and the turns of Serve/Tags, SQEntries, and of the programs under
-- example/ the calls that the goroutine of a hung step of chain still makes beside the deferred
-- ones, what the writers of stress do once the wait for them ended, the flags, and the helpers that
-- only print or run a command.
pub mod Prelude
pub mod Go
pub mod Config
pub mod Uring
pub mod Types
pub mod Storage
pub mod Worker
pub mod System
pub mod Serve
pub mod Device
pub mod Examples
mod Tests
