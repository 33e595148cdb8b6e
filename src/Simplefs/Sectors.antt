-- ===== src/Simplefs/Sectors.antt =====
-- The map of used sectors in kernel/simplefs.c, and the search for a free run. The three functions on
-- a bit are those of kernel/frame.c.
pub mod FirstFit
pub mod Allocate
use agentic_os_harness.Common.{
  ℕ, zero, suc, ◌+◌, ◌-◌, ◌/◌, Bool, true, false, not, ◌||◌, Option, none, some, List, ltb, leb,
  ◌==◌, if◌then◌else◌, add32, sub32, replicate,
}
use agentic_os_harness.Bitmap.{bitmap_test, bitmap_set, bitmap_clear}
use agentic_os_harness.Disk.{BlockDevice, sector_size}
use agentic_os_harness.Simplefs.State.{
  Superblock, SimpleFs, Result, ok, err, Fs, and_then, ◌>>=◌, ◌>>◌, give, fail, guard, eio, enospc,
  simplefs_data_start, simplefs_max_tracked_sectors,
}
use agentic_os_harness.Simplefs.Layout.{superblock_sector}

unfoldable pub simplefs_sectors_for_bytes : ℕ → ℕ
simplefs_sectors_for_bytes bytes =
    if bytes == 0 then 0 else add32 bytes (sector_size - 1) / sector_size

abbrev pub blank_map : List ℕ
blank_map = replicate (simplefs_max_tracked_sectors / 8) 0

-- `count == 0`, or the run stands in the data area
abbrev pub run_outside : Superblock → ℕ → ℕ → Bool
run_outside sb start count =
    ltb start simplefs_data_start
    || leb sb.total_sectors start
    || ltb (sb.total_sectors - start) count

-- The loop of `simplefs_mark_run_used`: whether no sector was used before, and the map.
unfoldable pub mark_from : ℕ → ℕ → List ℕ → Bool × List ℕ
mark_from zero sector used = (true, used)
mark_from (suc n) sector used = elim (bitmap_test used sector) [
  | true ↦ (false, used)
  | false ↦ mark_from n (sector + 1) (bitmap_set used sector)
]

abbrev pub marked : {D : Type 0} → SimpleFs D → Bool × List ℕ → Result (Unit {0}) × SimpleFs D
marked s (true, used) = (ok tt, record s { sector_used = used })
marked s (false, used) = (err eio, record s { sector_used = used })

unfoldable pub simplefs_mark_run_used : {D : Type 0} → ℕ → ℕ → Fs D (Unit {0})
unfolding mark_from
simplefs_mark_run_used start count s =
    if count == 0
    then (ok tt, s)
    else if run_outside s.sb start count
    then (err eio, s)
    else marked s (mark_from count start s.sector_used)

-- The loop of `simplefs_mark_run_free`.
unfoldable pub free_from : ℕ → ℕ → List ℕ → List ℕ
free_from zero sector used = used
free_from (suc n) sector used = free_from n (sector + 1) (bitmap_clear used sector)

unfoldable pub simplefs_mark_run_free : {D : Type 0} → SimpleFs D → ℕ → ℕ → SimpleFs D
unfolding free_from
simplefs_mark_run_free s start count =
    if count == 0 || run_outside s.sb start count
    then s
    else record s { sector_used = free_from count start s.sector_used }

-- `while (run < count && !simplefs_sector_is_used(start + run)) run++;`, from `sector` on
unfoldable pub free_run : List ℕ → ℕ → ℕ → ℕ
free_run used zero sector = 0
free_run used (suc n) sector = elim (bitmap_test used sector) [
  | true ↦ 0
  | false ↦ suc (free_run used n (sector + 1))
]

-- The outer loop of `simplefs_allocate_sectors`, of at most `fuel` rounds; `last` is the last start.
unfoldable pub find_run : ℕ → List ℕ → ℕ → ℕ → ℕ → Option ℕ
unfolding free_run
find_run zero used count last start = none
find_run (suc fuel) used count last start =
    let run = free_run used count start in
    let further = find_run fuel used count last (start + run + 1) in
    if ltb last start then none else if run == count then some start else further

module _ {D : Type 0} (dev : BlockDevice D) where
  unfoldable pub write_back : SimpleFs D → Option D → Result (Unit {0}) × SimpleFs D
  write_back s none = (err eio, s)
  write_back s (some disk) = (ok tt, record s { disk = disk })

  -- A sector written through the device.
  unfoldable pub write_sector_of : ℕ → List ℕ → Fs D (Unit {0})
  unfolding write_back
  write_sector_of lba bytes s = write_back s (dev.write_sector s.disk lba bytes)

  unfoldable pub read_back : SimpleFs D → Option (List ℕ) → Result (List ℕ) × SimpleFs D
  read_back s none = (err eio, s)
  read_back s (some bytes) = (ok bytes, s)

  unfoldable pub read_sector_of : ℕ → Fs D (List ℕ)
  unfolding read_back
  read_sector_of lba s = read_back s (dev.read_sector s.disk lba)

  unfoldable pub simplefs_write_superblock : Fs D (Unit {0})
  unfolding write_sector_of superblock_sector
  simplefs_write_superblock s = write_sector_of 0 (superblock_sector s.sb) s

  -- `simplefs_sb.next_free_sector` after a run is taken
  abbrev pub raise_mark : ℕ → SimpleFs D → SimpleFs D
  raise_mark end s =
      if ltb s.sb.next_free_sector end
      then record s { sb = record s.sb { next_free_sector = end } }
      else s

  pub take_run : ℕ → Option ℕ → Fs D ℕ
  unfolding simplefs_write_superblock simplefs_mark_run_used
  take_run count none = fail enospc
  take_run count (some start) = do
    simplefs_mark_run_used start count
    λ s. simplefs_write_superblock (raise_mark (start + count) s)
    give start

  unfoldable pub simplefs_allocate_sectors : ℕ → Fs D ℕ
  unfolding find_run take_run
  simplefs_allocate_sectors count s =
      if count == 0
      then (ok 0, s)
      else if ltb (sub32 s.sb.total_sectors simplefs_data_start) count
      then (err enospc, s)
      else take_run count
          (find_run s.sb.total_sectors s.sector_used count (sub32 s.sb.total_sectors count)
            simplefs_data_start)
          s
