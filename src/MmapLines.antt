-- ===== src/MmapLines.antt =====
-- nvwa/mmap_line_view.h, and nvwa/mmap_line_reader.h, which reads in the same way: the lines of a
-- text that is mapped into memory.
pub mod Defs
pub mod Lines
pub mod Tests
