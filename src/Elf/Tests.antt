-- ===== src/Elf/Tests.antt =====
-- A load of kernel/elf.c of a program of one segment.
use agentic_os_harness.Common.{
  ℕ, ◌≡◌, refl, Bool, true, false, ◌&&◌, some, List, [], ◌∷◌, ltb, length, take, drop, replicate,
  pos,
}
use agentic_os_harness.Vfs.{vfs_flags_valid, FileSystem, FileInfo, vfs_clear_open_files}
use agentic_os_harness.Elf.Load.{PageTables, Machine, done, elf_load_from_vfs}
use agentic_os_harness.Bitmap.{bitmap_test, test_bit}
use agentic_os_harness.Strings.Blocks.{in_block}
use agentic_os_harness.Common.{if◌then◌else◌}
use agentic_os_harness.Common.{store_bytes}
use agentic_os_harness.Ramdisk.{Ramdisk, ramdisk_dev, ramdisk_read_sector, ramdisk_range_valid}
use agentic_os_harness.Simplefs.State.{SimpleFs}
use agentic_os_harness.Simplefs.Layout.{entry_bytes, entry_from}
use agentic_os_harness.Simplefs.Files.{new_entry, fresh_superblock}
use agentic_os_harness.Simplefs.Entries.{
  system_map, simplefs_normalize_path, simplefs_find_entry, find_entry_from, simplefs_read_entry,
  same_name, name_allowed,
}
use agentic_os_harness.Simplefs.Sectors.{read_sector_of, read_back}
use agentic_os_harness.Simplefs.Device.{simplefs_file_system}
use agentic_os_harness.Simplefs.Files.{
  simplefs_open, simplefs_read, simplefs_stat, read_chunks, open_found,
}

-- Four bytes of code that are loaded at 0x40000000, with 16 bytes of memory.
abbrev program : List ℕ
program =
    127 ∷ 69 ∷ 76 ∷ 70 ∷ 1 ∷ 1 ∷ 1 ∷ 0 ∷ 0 ∷ 0 ∷ 0 ∷ 0 ∷ 0 ∷ 0 ∷ 0 ∷ 0 ∷ 2 ∷ 0 ∷ 3 ∷ 0 ∷ 1 ∷ 0 ∷ 0
    ∷ 0 ∷ 0 ∷ 0 ∷ 0 ∷ 64 ∷ 52 ∷ 0 ∷ 0 ∷ 0 ∷ 0 ∷ 0 ∷ 0 ∷ 0 ∷ 0 ∷ 0 ∷ 0 ∷ 0 ∷ 52 ∷ 0 ∷ 32 ∷ 0 ∷ 1 ∷ 0
    ∷ 0 ∷ 0 ∷ 0 ∷ 0 ∷ 0 ∷ 0 ∷ 1 ∷ 0 ∷ 0 ∷ 0 ∷ 84 ∷ 0 ∷ 0 ∷ 0 ∷ 0 ∷ 0 ∷ 0 ∷ 64 ∷ 0 ∷ 0 ∷ 0 ∷ 0 ∷ 4
    ∷ 0 ∷ 0 ∷ 0 ∷ 16 ∷ 0 ∷ 0 ∷ 0 ∷ 5 ∷ 0 ∷ 0 ∷ 0 ∷ 0 ∷ 0 ∷ 0 ∷ 0 ∷ 144 ∷ 144 ∷ 144 ∷ 195 ∷ []

abbrev all_bytes : List ℕ → Bool
all_bytes [] = true
all_bytes (b ∷ bs) = ltb b 256 && all_bytes bs

abbrev program_info : FileInfo
program_info = record { start_sector = 5; size = 88; allocated_sectors = 1; flags = 0 }

-- Every path is the program.
abbrev one_file : FileSystem (Unit {0})
one_file = record {
  fs_format = λ d. (pos 0, d);
  fs_mount = λ d. (pos 0, d);
  fs_open = λ p flags d. (pos 0, program_info, d);
  fs_read = λ p offset count d.
      (pos (length (take count (drop offset program))), take count (drop offset program), d);
  fs_write = λ p offset bytes count d. (pos 0, d);
  fs_stat = λ p d. (pos 0, program_info, d);
}

-- Page tables that map whatever they are asked to, with the page that was mapped last, which then shows 255.
abbrev any_pages : PageTables ℕ
any_pages = record {
  is_mapped = λ page p. false;
  is_user_writable = λ page p. true;
  unmap_page = λ page p. p;
  map_page_in_directory = λ cr3 page phys flags frames p. (true, frames, page);
  set_page_flags_in_directory = λ cr3 page flags p. (true, p);
  current_directory = λ p. 4096;
  shown = λ p before x. if in_block p 4096 x then 255 else before x;
  switch_directory = λ cr3 p. p;
}

abbrev machine : Machine (Unit {0}) ℕ
machine = record {
  vfs = record { root_dev = true; mounted = true; files = vfs_clear_open_files };
  disk = tt;
  frames = record {
    bitmap = replicate 128 0;
    refcounts = replicate 1024 0;
    total = 1024;
    used = 0;
    initialized = true;
  };
  pages = 0;
  memory = λ x. 0;
}

-- A volume on the ramdisk with the program as its file `a`.
abbrev program_disk : SimpleFs Ramdisk
program_disk = record {
  disk = record {
    contents =
        store_bytes
          (store_bytes (λ x. 0) 512
            (entry_bytes (record (new_entry (97 ∷ [])) {
              start_sector = 5;
              size_bytes = 88;
              allocated_sectors = 1;
            })))
          2560 program;
    initialized = true;
  };
  sb = fresh_superblock ramdisk_dev;
  mounted = true;
  sector_used = system_map ramdisk_dev;
}

abbrev disk_machine : Machine (SimpleFs Ramdisk) ℕ
disk_machine = record {
  vfs = machine.vfs;
  disk = program_disk;
  frames = machine.frames;
  pages = machine.pages;
  memory = machine.memory;
}

-- The load succeeds, and the byte behind the code is 0.
loads : (elf_load_from_vfs one_file any_pages (some (47 ∷ 97 ∷ [])) machine).1.memory 1073741828 ≡ 0
unfolding elf_load_from_vfs vfs_flags_valid vfs_clear_open_files replicate bitmap_test test_bit
loads = refl

starts :
    (elf_load_from_vfs one_file any_pages (some (47 ∷ 97 ∷ [])) machine).0
    ≡ done (record {
      entry = 1073741824;
      load_start = 1073741824;
      load_end = 1073741840;
      loaded_bytes = 4;
      segment_count = 1;
    })
unfolding elf_load_from_vfs vfs_flags_valid vfs_clear_open_files replicate bitmap_test test_bit
starts = refl

-- So does that of the file on the ramdisk.
loads_from_disk :
    (elf_load_from_vfs
        (simplefs_file_system ramdisk_dev)
        any_pages
        (some (47 ∷ 97 ∷ []))
        disk_machine).1.memory
      1073741824
    ≡ 144
unfolding elf_load_from_vfs vfs_flags_valid vfs_clear_open_files replicate bitmap_test test_bit
    simplefs_normalize_path simplefs_find_entry find_entry_from simplefs_read_entry read_sector_of
    read_back ramdisk_read_sector ramdisk_range_valid entry_from entry_bytes same_name name_allowed
    simplefs_open simplefs_read simplefs_stat read_chunks open_found
loads_from_disk = refl
