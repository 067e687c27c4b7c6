-- ===== src/Buffer/Segment.antt =====
-- internal/buffer/segment.go: the writer of a segment file, its footer, and the two readers.
-- A file is the list of its bytes. What the operating system answers comes from a script.
pub mod Writer
pub mod Reader
pub mod Records
pub mod Scan
pub mod Adds
pub mod Append
pub mod Entries
pub mod Trailer
pub mod Footer
