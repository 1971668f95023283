-- ===== src/BoolArray.antt =====
-- nvwa/bool_array.h and nvwa/bool_array.cpp: the packed Boolean array.
pub mod Memory
pub mod Content
pub mod Blocks
pub mod Defs
pub mod Valid
pub mod Access
pub mod Create
pub mod Merging
pub mod Gather
pub mod Merge
pub mod Range
pub mod Counting
pub mod Count
pub mod CountRange
pub mod Searching
pub mod Scans
pub mod Find
pub mod CopyOut
pub mod Print
mod Tests
