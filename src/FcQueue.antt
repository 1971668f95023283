-- ===== src/FcQueue.antt =====
-- nvwa/fc_queue.h: the queue of fixed capacity.
pub mod Defs
pub mod Valid
pub mod Refine
pub mod Whole
pub mod Copy
pub mod Script
pub mod Threads
mod Tests
