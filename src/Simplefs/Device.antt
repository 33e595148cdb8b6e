-- ===== src/Simplefs/Device.antt =====
-- kernel/simplefs.c as the file system that kernel/vfs.c calls.
use agentic_os_harness.Common.{ℕ, true, some, List, [], ℤ, pos, length}
use agentic_os_harness.Disk.{BlockDevice}
use agentic_os_harness.Vfs.{FileInfo, FileSystem}
use agentic_os_harness.Simplefs.State.{SimpleFs, Result, ok, err}
use agentic_os_harness.Simplefs.Files.{
  simplefs_format, simplefs_mount, simplefs_open, simplefs_read, simplefs_write, simplefs_stat,
}

abbrev no_info : FileInfo
no_info = record { start_sector = 0; size = 0; allocated_sectors = 0; flags = 0 }

module _ {D : Type 0} where
  abbrev pub status_of : Result (Unit {0}) × SimpleFs D → ℤ × SimpleFs D
  status_of (ok a, s) = (pos 0, s)
  status_of (err e, s) = (e, s)

  abbrev pub info_status : Result FileInfo × SimpleFs D → ℤ × FileInfo × SimpleFs D
  info_status (ok info, s) = (pos 0, info, s)
  info_status (err e, s) = (e, no_info, s)

  abbrev pub bytes_status : Result (List ℕ) × SimpleFs D → ℤ × List ℕ × SimpleFs D
  bytes_status (ok bytes, s) = (pos (length bytes), bytes, s)
  bytes_status (err e, s) = (e, [], s)

  abbrev pub count_status : Result ℕ × SimpleFs D → ℤ × SimpleFs D
  count_status (ok n, s) = (pos n, s)
  count_status (err e, s) = (e, s)

module _ {D : Type 0} (dev : BlockDevice D) where
  abbrev pub simplefs_file_system : FileSystem (SimpleFs D)
  simplefs_file_system = record {
    fs_format = λ s. status_of (simplefs_format dev s);
    fs_mount = λ s. status_of (simplefs_mount dev s);
    fs_open = λ path flags s. info_status (simplefs_open dev (some path) flags s);
    fs_read =
        λ path offset count s. bytes_status (simplefs_read dev (some path) offset true count s);
    fs_write = λ path offset bytes count s.
        count_status (simplefs_write dev (some path) offset (some bytes) count s);
    fs_stat = λ path s. info_status (simplefs_stat dev path s);
  }
