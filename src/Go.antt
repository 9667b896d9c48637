-- ===== src/Go.antt =====
-- What the program uses of Go itself: machine words and the functions of `math/bits`.
pub mod Words
pub mod Bits
