-- ===== src/Simplefs/Tests.antt =====
-- Runs of kernel/simplefs.c on the disk of kernel/ramdisk.c.
use agentic_os_harness.Common.{
  ℕ, ◌<◌, ◌≡◌, refl, true, [], ◌∷◌, arith, replicate, length-replicate, All-replicate, ◌⊎◌,
}
use agentic_os_harness.Bitmap.Laws.{IsBitmap, bitmap_set-IsBitmap}
use agentic_os_harness.Ramdisk.{Ramdisk, ramdisk_dev}
use agentic_os_harness.Ramdisk.Sectors.{ramdisk_dev-IsDisk}
use agentic_os_harness.Vfs.Open.{Opens, vfs_open-Opens}
use agentic_os_harness.Vfs.{Vfs, vfs_open, vfs_clear_open_files}
use agentic_os_harness.Simplefs.State.{SimpleFs, DirEntry}
use agentic_os_harness.Simplefs.Layout.Coding.{IsEntry}
use agentic_os_harness.Simplefs.Sectors.{
  blank_map, simplefs_allocate_sectors, simplefs_sectors_for_bytes,
}
use agentic_os_harness.Simplefs.Sectors.Allocate.{Taken, Full, simplefs_allocate_sectors-FirstFree}
use agentic_os_harness.Simplefs.Entries.{simplefs_write_entry, system_map}
use agentic_os_harness.Simplefs.Entries.Slots.{Replaced, simplefs_write_entry-Replaced}
use agentic_os_harness.Simplefs.Files.{new_entry, fresh_superblock}
use agentic_os_harness.Simplefs.Device.{simplefs_file_system}
use agentic_os_harness.Simplefs.Status.{simplefs_file_system-OpenStatus}
use agentic_os_harness.Simplefs.Files.{simplefs_format}
use agentic_os_harness.Simplefs.Format.{Formatted, simplefs_format-Formatted}
use agentic_os_harness.Common.{some}

abbrev volume : SimpleFs Ramdisk
volume = record {
  disk = record { contents = λ x. 0; initialized = true };
  sb = fresh_superblock ramdisk_dev;
  mounted = true;
  sector_used = system_map ramdisk_dev;
}

blank_map-IsBitmap : IsBitmap blank_map 4096
blank_map-IsBitmap = record {
  room = omega (arith, length-replicate {A = ℕ} 512 0);
  bytes = All-replicate (λ b. b < 256) 512 0 (omega arith);
}

system_map-IsBitmap : IsBitmap (system_map ramdisk_dev) 4096
system_map-IsBitmap = bitmap_set-IsBitmap _ 4096 4 (
    bitmap_set-IsBitmap _ 4096 3 (
      bitmap_set-IsBitmap _ 4096 2
        (bitmap_set-IsBitmap _ 4096 1 (bitmap_set-IsBitmap _ 4096 0 blank_map-IsBitmap))))

simplefs_allocate_sectors-FirstFree_example :
    Taken volume 2 (simplefs_allocate_sectors ramdisk_dev 2 volume)
    ⊎ Full volume 2 (simplefs_allocate_sectors ramdisk_dev 2 volume)
simplefs_allocate_sectors-FirstFree_example =
    simplefs_allocate_sectors-FirstFree ramdisk_dev ramdisk_dev-IsDisk (omega arith) volume 2
      (omega arith) (omega arith) (omega arith) (omega arith) system_map-IsBitmap

-- A file with the name `a`.
abbrev file_a : DirEntry
file_a = record (new_entry (97 ∷ [])) { start_sector = 5; size_bytes = 700; allocated_sectors = 2 }

file_a-IsEntry : IsEntry file_a
unfolding replicate
file_a-IsEntry = record {
  name = refl;
  used = omega arith;
  start_sector = omega arith;
  size_bytes = omega arith;
  allocated_sectors = omega arith;
  flags = omega arith;
  reserved0 = omega arith;
  reserved1 = omega arith;
  reserved2 = omega arith;
}

simplefs_write_entry-Replaced_example :
    Replaced ramdisk_dev volume 9 file_a (simplefs_write_entry ramdisk_dev 9 file_a volume)
simplefs_write_entry-Replaced_example =
    simplefs_write_entry-Replaced ramdisk_dev ramdisk_dev-IsDisk (omega arith) volume 9 file_a refl
      (omega arith) file_a-IsEntry

abbrev mounted_vfs : Vfs
mounted_vfs = record { root_dev = true; mounted = true; files = vfs_clear_open_files }

-- A file is created on the empty volume.
vfs_open-Opens_example :
    Opens
      (simplefs_file_system ramdisk_dev)
      mounted_vfs
      (some (47 ∷ 97 ∷ []))
      258
      volume
      (vfs_open (simplefs_file_system ramdisk_dev) mounted_vfs (some (47 ∷ 97 ∷ [])) 258 volume)
vfs_open-Opens_example =
    vfs_open-Opens (simplefs_file_system ramdisk_dev) (simplefs_file_system-OpenStatus ramdisk_dev)
      mounted_vfs (some (47 ∷ 97 ∷ [])) 258 volume

-- A size of more than 2^32 - 512 bytes counts as no sector.
sectors_wrap : simplefs_sectors_for_bytes 4294967295 ≡ 0
unfolding simplefs_sectors_for_bytes
sectors_wrap = refl

simplefs_format-Formatted_example : Formatted ramdisk_dev (simplefs_format ramdisk_dev volume)
simplefs_format-Formatted_example =
    simplefs_format-Formatted ramdisk_dev ramdisk_dev-IsDisk (omega arith) (omega arith) volume refl
