-- ===== src/Uring.antt =====
-- ublk/uring/uring.go: the io_uring wrapper. The shared words that the code reads and writes through
-- pointers into the mapped rings are fields here; what the kernel does to
-- them is explicit.
pub mod Round
pub mod Window
pub mod Entry
pub mod Sq
pub mod Cq
pub mod Ring
