-- ===== src/MemoryTrace.antt =====
-- nvwa/memory_trace.cpp: the contexts, and the list of the blocks that are allocated.
pub mod Defs
pub mod Valid
pub mod Release
pub mod Leaks
pub mod Scopes
pub mod Programs
pub mod Operators
pub mod Tests
