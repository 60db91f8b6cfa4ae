-- ===== src/Programs.antt =====
-- The programs of src/programs that stand on system calls alone: wc.c and grep.c. What they read is the
-- sequence of the reads' results, and what they print is a list of bytes.
pub mod Count
pub mod Match
pub mod Grep
pub mod Decimal
mod Tests
