-- ===== src/Split.antt =====
-- nvwa/split.h: the parts of a string between the delimiters.
pub mod Defs
pub mod Parts
pub mod Iterate
mod Tests
