-- ===== src/Vfs/Tests.antt =====
-- Runs of kernel/vfs.c on a file system that opens every path.
use agentic_os_harness.Common.{ℕ, ◌≡◌, refl, true, some, List, [], ◌∷◌, arith, pos, replicate, inl}
use agentic_os_harness.Vfs.{
  FileSystem, Vfs, vfs_open, vfs_close, vfs_retain, vfs_success, OpenFile, file_at, blank_file,
  vfs_clear_open_files, vfs_flags_valid, vfs_copy_path, vfs_alloc_fd, vfs_fd_valid, FileInfo,
  opened,
}
use agentic_os_harness.Vfs.Files.{
  IsFileTable, vfs_clear_open_files-IsFileTable, set-IsFileTable, vfs_close-vfs_retain, close_times,
  close_times-cleared,
}
use agentic_os_harness.Vfs.Open.{vfs_close-vfs_open, OpenStatus}

abbrev no_info : FileInfo
no_info = record { start_sector = 0; size = 0; allocated_sectors = 0; flags = 0 }

-- The disk is the list of paths that were opened.
abbrev open_all : FileSystem (List (List ℕ))
open_all = record {
  fs_format = λ d. (pos 0, []);
  fs_mount = λ d. (pos 0, d);
  fs_open = λ p flags d. (pos 0, no_info, p ∷ d);
  fs_read = λ p offset count d. (pos 0, [], d);
  fs_write = λ p offset bytes count d. (pos count, d);
  fs_stat = λ p d. (pos 0, no_info, d);
}

abbrev mounted : Vfs
mounted = record { root_dev = true; mounted = true; files = vfs_clear_open_files }

abbrev path : List ℕ
path = 47 ∷ 97 ∷ []

open_all-OpenStatus : OpenStatus open_all
open_all-OpenStatus p flags d = inl refl

opens_first : (vfs_open open_all mounted (some path) 1 []).0 ≡ pos 0
unfolding vfs_open opened vfs_flags_valid vfs_copy_path vfs_alloc_fd vfs_clear_open_files replicate
opens_first = refl

vfs_close-vfs_open_example :
    vfs_close (vfs_open open_all mounted (some path) 1 []).1.files (pos 0)
    ≡ (vfs_success, vfs_clear_open_files)
vfs_close-vfs_open_example =
    vfs_close-vfs_open open_all open_all-OpenStatus mounted (some path) 1 [] 0
      vfs_clear_open_files-IsFileTable opens_first

abbrev one_file : OpenFile
one_file = record { used = true; ref_count = 3; path = path; flags = 1; offset = 0 }

abbrev one_open : List OpenFile
one_open = one_file ∷ replicate 15 blank_file

one_open-IsFileTable : IsFileTable one_open
unfolding vfs_clear_open_files replicate
one_open-IsFileTable =
    set-IsFileTable vfs_clear_open_files 0 one_file vfs_clear_open_files-IsFileTable
      (λ e. (omega arith, omega arith), λ e. absurd (cc))

vfs_close-vfs_retain_example :
    vfs_close (vfs_retain one_open (pos 0)).1 (pos 0) ≡ (vfs_success, one_open)
unfolding vfs_retain vfs_fd_valid replicate
vfs_close-vfs_retain_example = vfs_close-vfs_retain one_open (pos 0) one_open-IsFileTable refl

close_times-cleared_example :
    ((file_at (close_times 2 one_open (pos 0)) 0).used ≡ true)
    × (close_times 3 one_open (pos 0) ≡ blank_file ∷ replicate 15 blank_file)
close_times-cleared_example =
    close_times-cleared 2 one_open 0 one_open-IsFileTable.size (omega arith) refl refl
