-- ===== src/Elf.antt =====
-- kernel/elf.c: the loader of programs: it reads a file through kernel/vfs.c, checks its headers, and
-- maps and fills the pages of its segments.
pub mod Image
pub mod Checks
pub mod Load
pub mod Accepted
pub mod Headers
pub mod Mapped
pub mod Loaded
pub mod Reading
pub mod Program
mod Tests
