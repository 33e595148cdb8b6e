-- ===== src/Process.antt =====
-- kernel/process.c: the types of the process table, its descriptors, markers, signals and life cycle.
pub mod Types
pub mod Fd
pub mod Markers
pub mod Lookup
pub mod Wait
pub mod Exit
pub mod Create
pub mod Resume
mod Tests
