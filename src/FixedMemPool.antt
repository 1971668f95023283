-- ===== src/FixedMemPool.antt =====
-- nvwa/fixed_mem_pool.h: blocks of a fixed size from one chunk of memory, linked in a free list.
pub mod Defs
pub mod Valid
pub mod Refine
pub mod Script
pub mod Create
mod Tests
