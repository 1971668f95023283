-- ===== src/Bits.antt =====
-- The bit operations of C on unsigned values, seen bit by bit.
pub mod Words
pub mod Digit
pub mod Laws
pub mod Ones
pub mod First
pub mod Mask
