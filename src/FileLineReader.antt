-- ===== src/FileLineReader.antt =====
-- nvwa/file_line_reader.h and nvwa/file_line_reader.cpp: the lines of a text file.
pub mod Defs
pub mod Lines
pub mod Chunks
pub mod Reading
pub mod Bytes
pub mod Read
pub mod Iterate
mod Tests
