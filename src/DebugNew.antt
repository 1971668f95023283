-- ===== src/DebugNew.antt =====
-- nvwa/debug_new.cpp: the list of the blocks that are allocated, and the checks of it.
pub mod Memory
pub mod Reports
pub mod Alloc
pub mod Valid
pub mod Allocate
pub mod Release
pub mod Walks
pub mod Twice
pub mod Align
pub mod Cycle
pub mod Misuse
pub mod Tests
pub mod Operators
