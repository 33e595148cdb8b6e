-- ===== src/Simplefs.antt =====
-- kernel/simplefs.c: a flat directory of 32 files on a block device, each file one run of sectors.
pub mod State
pub mod Layout
pub mod Sectors
pub mod Entries
pub mod Files
pub mod Device
pub mod Status
pub mod Parts
pub mod Runs
pub mod Content
pub mod Serving
pub mod Format
mod Tests
