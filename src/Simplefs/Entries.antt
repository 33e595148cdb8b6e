-- ===== src/Simplefs/Entries.antt =====
-- Names and directory entries of kernel/simplefs.c, and the rebuilding of the map of used sectors.
pub mod Slots
use agentic_os_harness.Common.{
  ℕ, zero, suc, ◌+◌, ◌-◌, ◌*◌, ◌/◌, ◌%◌, Bool, true, false, not, ◌&&◌, ◌||◌, Option, none, some,
  List, [], ◌∷◌, ◌++◌, ltb, leb, ◌==◌, if◌then◌else◌, add32, length, take, replicate, ℤ,
}
use agentic_os_harness.Bitmap.{bitmap_set}
use agentic_os_harness.Disk.{BlockDevice}
use agentic_os_harness.Simplefs.State.{
  DirEntry, SimpleFs, Result, ok, err, Fs, and_then, ◌>>=◌, ◌>>◌, give, fail, guard, einval, enoent,
  enospc, eio, simplefs_data_start, simplefs_max_files, simplefs_name_max,
}
use agentic_os_harness.Simplefs.Layout.{
  entry_size, entries_per_sector, entry_bytes, entry_from, patch,
}
use agentic_os_harness.Simplefs.Sectors.{
  blank_map, run_outside, simplefs_mark_run_used, write_sector_of, read_sector_of,
  simplefs_write_superblock,
}

-- The loop of `simplefs_normalize_path` from index `len` on: whether every character is allowed.
unfoldable pub name_allowed : List ℕ → ℕ → Bool
name_allowed [] len = true
name_allowed (c ∷ cs) len =
    not (c == b'/') && not (leb (simplefs_name_max - 1) len) && name_allowed cs (len + 1)

-- `.` and `..`
abbrev pub is_dots : List ℕ → Bool
is_dots (c ∷ []) = c == b'.'
is_dots (c ∷ d ∷ []) = c == b'.' && d == b'.'
is_dots _ = false

abbrev pub allowed_name : List ℕ → Option (List ℕ)
allowed_name [] = none
allowed_name (c ∷ cs) =
    if not (name_allowed (c ∷ cs) 0) || is_dots (c ∷ cs) then none else some (c ∷ cs)

-- A path is a list of characters without 0, `none` for NULL; the result `none` is VFS_EINVAL.
unfoldable pub simplefs_normalize_path : Option (List ℕ) → Option (List ℕ)
unfolding name_allowed
simplefs_normalize_path none = none
simplefs_normalize_path (some []) = none
simplefs_normalize_path (some (c ∷ name)) = if not (c == b'/') then none else allowed_name name

-- `strcmp(field, name) == 0`, for a name that is shorter than the field.
unfoldable pub same_name : List ℕ → List ℕ → Bool
same_name [] name = false
same_name (c ∷ cs) [] = c == 0
same_name (c ∷ cs) (d ∷ ds) = c == d && same_name cs ds

-- `simplefs_copy_name` into a field that is all 0.
abbrev pub simplefs_copy_name : List ℕ → List ℕ
simplefs_copy_name name =
    let copied = take (simplefs_name_max - 1) name in
    copied ++ replicate (simplefs_name_max - length copied) 0

module _ {D : Type 0} (dev : BlockDevice D) where
  abbrev pub entry_sector : SimpleFs D → ℕ → ℕ
  entry_sector s index = add32 s.sb.dir_start (index / entries_per_sector)

  abbrev pub entry_offset : ℕ → ℕ
  entry_offset index = index % entries_per_sector * entry_size

  unfoldable pub simplefs_read_entry : ℕ → Fs D DirEntry
  unfolding read_sector_of entry_from
  simplefs_read_entry index s =
      if leb simplefs_max_files index
      then (err einval, s)
      else and_then (read_sector_of dev (entry_sector s index) s)
          (λ sector. give (entry_from sector (entry_offset index)))

  unfoldable pub simplefs_write_entry : ℕ → DirEntry → Fs D (Unit {0})
  unfolding read_sector_of write_sector_of entry_bytes
  simplefs_write_entry index entry s =
      if leb simplefs_max_files index
      then (err einval, s)
      else and_then (read_sector_of dev (entry_sector s index) s) (λ sector.
        write_sector_of dev (entry_sector s index)
          (patch sector (entry_offset index) (entry_bytes entry)))

  -- The loop of `simplefs_find_entry` over the `n` entries from `index` on.
  unfoldable pub find_entry_from : ℕ → ℕ → List ℕ → Fs D (ℕ × DirEntry)
  unfolding simplefs_read_entry same_name
  find_entry_from zero index name = fail enoent
  find_entry_from (suc n) index name = do
    entry ← simplefs_read_entry index
    let further = find_entry_from n (index + 1) name
    if not (entry.used == 0) && same_name entry.name name then give (index, entry) else further

  unfoldable pub simplefs_find_entry : List ℕ → Fs D (ℕ × DirEntry)
  unfolding find_entry_from
  simplefs_find_entry name = find_entry_from simplefs_max_files 0 name

  -- The loop of `simplefs_find_free_entry`.
  unfoldable pub free_entry_from : ℕ → ℕ → Fs D ℕ
  unfolding simplefs_read_entry
  free_entry_from zero index = fail enospc
  free_entry_from (suc n) index = do
    entry ← simplefs_read_entry index
    let further = free_entry_from n (index + 1)
    if entry.used == 0 then give index else further

  unfoldable pub simplefs_find_free_entry : Fs D ℕ
  unfolding free_entry_from
  simplefs_find_free_entry = free_entry_from simplefs_max_files 0

  -- The entry's run enters the map; the result is the new high-water mark.
  unfoldable pub mark_entry : DirEntry → ℕ → Fs D ℕ
  unfolding simplefs_mark_run_used
  mark_entry entry high_water s =
      if entry.used == 0 || entry.allocated_sectors == 0
      then (ok high_water, s)
      else if run_outside s.sb entry.start_sector entry.allocated_sectors
      then (err eio, s)
      else and_then (simplefs_mark_run_used entry.start_sector entry.allocated_sectors s) (λ _.
        give (
          let end = entry.start_sector + entry.allocated_sectors in
          if ltb high_water end then end else high_water))

  -- The loop of `simplefs_rebuild_allocation_map` over the entries.
  unfoldable pub mark_entries_from : ℕ → ℕ → ℕ → Fs D ℕ
  unfolding simplefs_read_entry mark_entry
  mark_entries_from zero index high_water = give high_water
  mark_entries_from (suc n) index high_water = do
    entry ← simplefs_read_entry index
    high ← mark_entry entry high_water
    mark_entries_from n (index + 1) high

  -- Sectors 0 to 4 in use, and no other.
  abbrev pub system_map : List ℕ
  system_map = bitmap_set (bitmap_set (bitmap_set (bitmap_set (bitmap_set blank_map 0) 1) 2) 3) 4

  unfoldable pub simplefs_rebuild_allocation_map : Fs D (Unit {0})
  unfolding mark_entries_from simplefs_write_superblock
  simplefs_rebuild_allocation_map s =
      and_then
        (mark_entries_from simplefs_max_files 0 simplefs_data_start
          (record s { sector_used = system_map }))
        (λ high t.
          simplefs_write_superblock dev (record t { sb = record t.sb { next_free_sector = high } }))
