-- ===== src/Ramdisk.antt =====
-- kernel/ramdisk.c: 4096 sectors in 2 MB of memory, a byte for each offset. A buffer that the caller
-- passes is never NULL here, but for the flag of the reading functions.
pub mod Sectors
use agentic_os_harness.Common.{
  ℕ, zero, suc, ◌+◌, ◌-◌, ◌*◌, Bool, true, false, not, ◌||◌, Option, none, some, List, ltb, leb,
  ◌==◌, if◌then◌else◌, take, bytes_from, store_bytes,
}
use agentic_os_harness.Disk.{BlockDevice, sector_size}
use agentic_os_harness.Frame.{Frames, frame_reserve_range}
use agentic_os_harness.Common.{◌/◌}

abbrev pub ramdisk_base : ℕ
ramdisk_base = 12582912

abbrev pub ramdisk_size : ℕ
ramdisk_size = 2097152

abbrev pub ramdisk_sectors : ℕ
ramdisk_sectors = 4096

pub record Ramdisk : Type 0 where
  pub contents : ℕ → ℕ
  pub initialized : Bool

unfoldable pub ramdisk_range_valid : ℕ → ℕ → Bool
ramdisk_range_valid lba count =
    if count == 0 || leb ramdisk_sectors lba then false else leb count (ramdisk_sectors - lba)

-- The flag says that `buffer` is not NULL; `none` is BLKDEV_EINVAL.
unfoldable pub ramdisk_read_sectors : Ramdisk → ℕ → ℕ → Bool → Option (List ℕ)
unfolding ramdisk_range_valid
ramdisk_read_sectors d lba count buffer =
    if not buffer || count == 0
    then none
    else if not (ramdisk_range_valid lba count)
    then none
    else some (bytes_from d.contents (count * sector_size) (lba * sector_size))

unfoldable pub ramdisk_read_sector : Ramdisk → ℕ → Bool → Option (List ℕ)
unfolding ramdisk_range_valid
ramdisk_read_sector d lba buffer =
    if not buffer
    then none
    else if not (ramdisk_range_valid lba 1)
    then none
    else some (bytes_from d.contents sector_size (lba * sector_size))

-- `buffer` is what it points to, `none` for NULL.
unfoldable pub ramdisk_write_sectors : Ramdisk → ℕ → ℕ → Option (List ℕ) → Option Ramdisk
unfolding ramdisk_range_valid
ramdisk_write_sectors d lba count none = none
ramdisk_write_sectors d lba count (some bytes) =
    if count == 0
    then none
    else if not (ramdisk_range_valid lba count)
    then none
    else some (record d {
      contents = store_bytes d.contents (lba * sector_size) (take (count * sector_size) bytes);
    })

unfoldable pub ramdisk_write_sector : Ramdisk → ℕ → Option (List ℕ) → Option Ramdisk
unfolding ramdisk_range_valid
ramdisk_write_sector d lba none = none
ramdisk_write_sector d lba (some bytes) =
    if not (ramdisk_range_valid lba 1)
    then none
    else some (record d {
      contents = store_bytes d.contents (lba * sector_size) (take sector_size bytes);
    })

-- The device that `ramdisk_init` fills in.
abbrev pub ramdisk_dev : BlockDevice Ramdisk
ramdisk_dev = record {
  sector_count = ramdisk_sectors;
  size_of_sector = sector_size;
  read_sector = λ d lba. ramdisk_read_sector d lba true;
  write_sector = λ d lba bytes. ramdisk_write_sector d lba (some bytes);
}

-- `paging_map_page` and `paging_is_mapped` of kernel/paging.c, over the state of the page tables.
module _ {P : Type 0} (map_page : ℕ → P → P) (is_mapped : ℕ → P → Bool) where
  -- The loop of `ramdisk_map_pages` over the pages that are left: whether all are mapped.
  pub map_pages_from : ℕ → ℕ → P → Bool × P
  map_pages_from zero address pages = (true, pages)
  map_pages_from (suc n) address pages =
      let mapped = map_page address pages in
      elim (is_mapped address mapped) [
        | true ↦ map_pages_from n (address + 4096) mapped
        | false ↦ (false, mapped)
      ]

  unfoldable pub ramdisk_map_pages : P → Bool × P
  unfolding map_pages_from
  ramdisk_map_pages pages = map_pages_from (ramdisk_size / 4096) ramdisk_base pages

  -- Whether it returns BLKDEV_SUCCESS.
  unfoldable pub ramdisk_init : Ramdisk → Frames → P → Bool × Ramdisk × Frames × P
  unfolding ramdisk_map_pages
  ramdisk_init d frames pages =
      if d.initialized
      then (true, d, frames, pages)
      else let (reserved, frames') =
          frame_reserve_range frames ramdisk_base (ramdisk_base + ramdisk_size) in
        if not reserved
        then (false, d, frames', pages)
        else let (mapped, pages') = ramdisk_map_pages pages in
          if not mapped
          then (false, d, frames', pages')
          else (true, record { contents = λ offset. 0; initialized = true }, frames', pages')

unfoldable pub ramdisk_get_device : Ramdisk → Option (BlockDevice Ramdisk)
ramdisk_get_device d = if d.initialized then some ramdisk_dev else none
