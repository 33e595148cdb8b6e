-- ===== src/Simplefs/Files.antt =====
-- The file operations of kernel/simplefs.c. A loop over chunks has as many rounds as bytes are left,
-- which is enough, since each chunk has a byte at least.
use agentic_os_harness.Common.{
  ℕ, zero, suc, ◌+◌, ◌-◌, ◌/◌, ◌%◌, Bool, true, false, not, ◌&&◌, ◌||◌, Option, none, some, List,
  [], ◌++◌, ltb, leb, ◌==◌, if◌then◌else◌, add32, length, take, drop, replicate, negsuc,
}
use agentic_os_harness.Disk.{BlockDevice, sector_size}
use agentic_os_harness.Vfs.{FileInfo, vfs_o_creat, vfs_o_trunc, has_flag}
use agentic_os_harness.Simplefs.State.{
  Superblock, DirEntry, SimpleFs, Result, ok, err, Fs, and_then, ◌>>=◌, ◌>>◌, give, fail, einval,
  enoent, eio, simplefs_magic, simplefs_dir_start, simplefs_dir_sectors, simplefs_max_files,
  simplefs_data_start, simplefs_max_tracked_sectors,
}
use agentic_os_harness.Simplefs.Layout.{superblock_sector, superblock_from, patch}
use agentic_os_harness.Simplefs.Sectors.{
  simplefs_sectors_for_bytes, simplefs_mark_run_free, write_sector_of, read_sector_of,
  simplefs_allocate_sectors,
}
use agentic_os_harness.Simplefs.Entries.{
  simplefs_normalize_path, simplefs_copy_name, simplefs_write_entry, simplefs_find_entry,
  simplefs_find_free_entry, simplefs_rebuild_allocation_map,
}

abbrev pub blank_sector : List ℕ
blank_sector = replicate sector_size 0

-- A new entry: all bytes 0 but these.
abbrev pub new_entry : List ℕ → DirEntry
new_entry name = record {
  used = 1;
  name = simplefs_copy_name name;
  start_sector = 0;
  size_bytes = 0;
  allocated_sectors = 0;
  flags = 0;
  reserved0 = 0;
  reserved1 = 0;
  reserved2 = 0;
}

abbrev pub info_of : DirEntry → FileInfo
info_of e = record {
  start_sector = e.start_sector;
  size = e.size_bytes;
  allocated_sectors = e.allocated_sectors;
  flags = e.flags;
}

abbrev pub min_u32 : ℕ → ℕ → ℕ
min_u32 a b = if ltb a b then a else b

-- The bytes of the sector at `absolute` that a loop still wants, of `left`.
abbrev pub chunk_of : ℕ → ℕ → ℕ
chunk_of absolute left = min_u32 left (sector_size - absolute % sector_size)

module _ {D : Type 0} (dev : BlockDevice D) where
  -- A path that is refused is VFS_EINVAL.
  abbrev pub named : {A : Type 0} → Option (List ℕ) → (List ℕ → Fs D A) → Fs D A
  named none f = fail einval
  named (some name) f = f name

  -- The loop of `simplefs_zero_run`, and that over the directory in `simplefs_format`.
  unfoldable pub zero_from : ℕ → ℕ → Fs D (Unit {0})
  unfolding write_sector_of
  zero_from zero sector = give tt
  zero_from (suc n) sector = do
    write_sector_of dev sector blank_sector
    zero_from n (add32 sector 1)

  -- The loop of `simplefs_copy_file_data`.
  unfoldable pub copy_from : ℕ → ℕ → ℕ → Fs D (Unit {0})
  unfolding write_sector_of read_sector_of
  copy_from zero source dest = give tt
  copy_from (suc n) source dest = do
    bytes ← read_sector_of dev source
    write_sector_of dev dest bytes
    copy_from n (add32 source 1) (add32 dest 1)

  unfoldable pub simplefs_copy_file_data : DirEntry → ℕ → Fs D (Unit {0})
  unfolding copy_from simplefs_sectors_for_bytes
  simplefs_copy_file_data entry new_start =
      copy_from (simplefs_sectors_for_bytes entry.size_bytes) entry.start_sector new_start

  unfoldable pub simplefs_ensure_capacity : DirEntry → ℕ → Fs D DirEntry
  unfolding simplefs_allocate_sectors zero_from simplefs_copy_file_data
  simplefs_ensure_capacity entry required =
      if leb required entry.allocated_sectors then give entry else do
        new_start ← simplefs_allocate_sectors dev required
        zero_from required new_start
        if ltb 0 entry.size_bytes && ltb 0 entry.allocated_sectors
            then simplefs_copy_file_data entry new_start
            else give tt
        give (record entry { start_sector = new_start; allocated_sectors = required })

  -- The first superblock.
  abbrev pub fresh_superblock : Superblock
  fresh_superblock = record {
    magic = simplefs_magic;
    version = 1;
    size_of_sector = sector_size;
    total_sectors = dev.sector_count;
    dir_start = simplefs_dir_start;
    dir_sectors = simplefs_dir_sectors;
    data_start = simplefs_data_start;
    next_free_sector = simplefs_data_start;
    max_files = simplefs_max_files;
  }

  abbrev pub simplefs_validate_dev : Bool
  simplefs_validate_dev =
      dev.size_of_sector == sector_size
      && ltb simplefs_data_start dev.sector_count
      && leb dev.sector_count simplefs_max_tracked_sectors

  -- The end of `simplefs_format` and of `simplefs_mount`.
  unfoldable pub rebuilt : Result (Unit {0}) × SimpleFs D → Result (Unit {0}) × SimpleFs D
  rebuilt (ok a, s) = (ok tt, record s { mounted = true })
  rebuilt (err e, s) = (err e, record s { mounted = false })

  unfoldable pub simplefs_format : Fs D (Unit {0})
  unfolding zero_from write_sector_of simplefs_rebuild_allocation_map rebuilt superblock_sector
  simplefs_format s =
      if not simplefs_validate_dev
      then (err einval, s)
      else and_then
          (write_sector_of dev 0 (superblock_sector fresh_superblock)
            (record s { sb = fresh_superblock }))
          (λ _ t.
            and_then (zero_from simplefs_dir_sectors simplefs_dir_start t)
              (λ _ u. rebuilt (simplefs_rebuild_allocation_map dev u)))

  abbrev pub superblock_valid : Superblock → Bool
  superblock_valid sb =
      sb.magic == simplefs_magic
      && sb.version == 1
      && sb.size_of_sector == sector_size
      && sb.total_sectors == dev.sector_count
      && sb.dir_start == simplefs_dir_start
      && sb.dir_sectors == simplefs_dir_sectors
      && sb.data_start == simplefs_data_start
      && sb.max_files == simplefs_max_files
      && leb simplefs_data_start sb.next_free_sector
      && leb sb.next_free_sector dev.sector_count

  unfoldable pub simplefs_mount : Fs D (Unit {0})
  unfolding read_sector_of superblock_from simplefs_rebuild_allocation_map rebuilt
  simplefs_mount s =
      if not simplefs_validate_dev
      then (err einval, s)
      else and_then (read_sector_of dev 0 s) (λ sector t.
        let sb = superblock_from sector in
        let u = record t { sb = sb } in
        if not (superblock_valid sb)
        then (err eio, u)
        else rebuilt (simplefs_rebuild_allocation_map dev u))

  -- A file that is not there is made, if the flags say so.
  unfoldable pub create_entry : List ℕ → Fs D DirEntry
  unfolding simplefs_find_free_entry simplefs_write_entry
  create_entry name = do
    index ← simplefs_find_free_entry dev
    simplefs_write_entry dev index (new_entry name)
    give (new_entry name)

  unfoldable pub truncate_entry : ℕ → DirEntry → Fs D DirEntry
  unfolding simplefs_mark_run_free simplefs_write_entry
  truncate_entry index entry s =
      let emptied = record entry { start_sector = 0; size_bytes = 0; allocated_sectors = 0 } in
      and_then
        (simplefs_write_entry dev index emptied
          (simplefs_mark_run_free s entry.start_sector entry.allocated_sectors))
        (λ _. give emptied)

  -- `simplefs_open` behind `simplefs_find_entry`.
  unfoldable pub open_found :
      List ℕ → ℕ → Result (ℕ × DirEntry) × SimpleFs D → Result DirEntry × SimpleFs D
  unfolding create_entry truncate_entry
  open_found name flags (ok (index, entry), s) =
      if has_flag flags vfs_o_trunc then truncate_entry index entry s else (ok entry, s)
  open_found name flags (err (negsuc (suc zero)), s) =
      if not (has_flag flags vfs_o_creat) then (err enoent, s) else create_entry name s
  open_found name flags (err status, s) = (err status, s)

  unfoldable pub simplefs_open : Option (List ℕ) → ℕ → Fs D FileInfo
  unfolding simplefs_normalize_path simplefs_find_entry open_found
  simplefs_open path flags s =
      if not s.mounted
      then (err eio, s)
      else named (simplefs_normalize_path path)
          (λ name t.
            and_then (open_found name flags (simplefs_find_entry dev name t))
              (λ entry. give (info_of entry)))
          s

  -- The loop of `simplefs_read`: the bytes from `absolute` on, in a run that begins at `start`.
  unfoldable pub read_chunks : ℕ → ℕ → ℕ → ℕ → Fs D (List ℕ)
  unfolding read_sector_of
  read_chunks zero start absolute left = give []
  read_chunks (suc fuel) start absolute left =
      let chunk = chunk_of absolute left in
      let step : Fs D (List ℕ) = (do
        sector ← read_sector_of dev (add32 start (absolute / sector_size))
        rest ← read_chunks fuel start (absolute + chunk) (left - chunk)
        give (take chunk (drop (absolute % sector_size) sector) ++ rest)) in
      if left == 0 then give [] else step

  -- The flag says that `buffer` is not NULL; the bytes go there.
  unfoldable pub simplefs_read : Option (List ℕ) → ℕ → Bool → ℕ → Fs D (List ℕ)
  unfolding simplefs_normalize_path simplefs_find_entry read_chunks
  simplefs_read path offset buffer count s =
      if not s.mounted
      then (err eio, s)
      else if not buffer && ltb 0 count
      then (err einval, s)
      else named (simplefs_normalize_path path)
          (λ name. do
            (index, entry) ← simplefs_find_entry dev name
            if leb entry.size_bytes offset || count == 0
                then give []
                else let n = min_u32 count (entry.size_bytes - offset) in
                  read_chunks n entry.start_sector offset n)
          s

  -- The loop of `simplefs_write`, for `bytes` from `absolute` on; `stale` is what the local buffer
  -- holds, which a whole sector replaces.
  unfoldable pub write_chunks : ℕ → ℕ → ℕ → List ℕ → List ℕ → Fs D (Unit {0})
  unfolding read_sector_of write_sector_of
  write_chunks zero start absolute bytes stale = give tt
  write_chunks (suc fuel) start absolute bytes stale =
      let chunk = chunk_of absolute (length bytes) in
      let lba = add32 start (absolute / sector_size) in
      let step : Fs D (Unit {0}) = (do
        old ← (if chunk == sector_size then give stale else read_sector_of dev lba)
        let new = patch old (absolute % sector_size) (take chunk bytes)
        write_sector_of dev lba new
        write_chunks fuel start (absolute + chunk) (drop chunk bytes) new) in
      if length bytes == 0 then give tt else step

  -- The end of `simplefs_write`: the old run is free again if the file moved.
  unfoldable pub settle : DirEntry → DirEntry → SimpleFs D → SimpleFs D
  unfolding simplefs_mark_run_free
  settle old entry s =
      if ltb 0 old.allocated_sectors && not (entry.start_sector == old.start_sector)
      then simplefs_mark_run_free s old.start_sector old.allocated_sectors
      else s

  write_entry_data : List ℕ → ℕ → ℕ × DirEntry → Fs D ℕ
  unfolding simplefs_ensure_capacity write_chunks simplefs_write_entry settle
      simplefs_sectors_for_bytes
  write_entry_data bytes offset (index, old) =
      let end = offset + length bytes in
      let new_size = if ltb end old.size_bytes then old.size_bytes else end in
      do
        entry ← simplefs_ensure_capacity old (simplefs_sectors_for_bytes new_size)
        write_chunks (length bytes) entry.start_sector offset bytes blank_sector
        simplefs_write_entry dev index (record entry { size_bytes = new_size })
        λ s. (ok (length bytes), settle old entry s)

  -- `buffer` is what it points to, `none` for NULL; `count` is its length.
  unfoldable pub simplefs_write : Option (List ℕ) → ℕ → Option (List ℕ) → ℕ → Fs D ℕ
  unfolding simplefs_normalize_path simplefs_find_entry write_entry_data
  simplefs_write path offset none count s =
      if not s.mounted then (err eio, s) else if ltb 0 count then (err einval, s) else (ok 0, s)
  simplefs_write path offset (some bytes) count s =
      if not s.mounted
      then (err eio, s)
      else if count == 0
      then (ok 0, s)
      else if ltb (add32 offset count) offset
      then (err einval, s)
      else named (simplefs_normalize_path path)
          (λ name. simplefs_find_entry dev name >>= write_entry_data (take count bytes) offset) s

  unfoldable pub simplefs_stat : Option (List ℕ) → Fs D FileInfo
  unfolding simplefs_normalize_path simplefs_find_entry
  simplefs_stat path s =
      if not s.mounted
      then (err eio, s)
      else named (simplefs_normalize_path path)
          (λ name. do (index, entry) ← simplefs_find_entry dev name; give (info_of entry)) s
