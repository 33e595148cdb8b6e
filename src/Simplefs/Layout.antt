-- ===== src/Simplefs/Layout.antt =====
-- What the structs of kernel/simplefs.c look like in a sector: words of four bytes, the lowest first,
-- and for an entry its 32 characters. An entry has 64 bytes.
pub mod Coding
use agentic_os_harness.Common.{
  ℕ, ◌+◌, List, [], ◌∷◌, ◌++◌, take, drop, replicate, word_bytes, word_at,
}
use agentic_os_harness.Simplefs.State.{Superblock, DirEntry}
use agentic_os_harness.Common.{length}

abbrev pub entry_size : ℕ
entry_size = 64

abbrev pub entries_per_sector : ℕ
entries_per_sector = 8

-- `memset(sector, 0, 512); memcpy(sector, &simplefs_sb, sizeof(simplefs_sb))`
unfoldable pub superblock_sector : Superblock → List ℕ
superblock_sector sb =
    word_bytes sb.magic
    ++ (word_bytes sb.version
        ++ (word_bytes sb.size_of_sector
            ++ (word_bytes sb.total_sectors
                ++ (word_bytes sb.dir_start
                    ++ (word_bytes sb.dir_sectors
                        ++ (word_bytes sb.data_start
                            ++ (word_bytes sb.next_free_sector
                                ++ (word_bytes sb.max_files ++ replicate 476 0))))))))

-- `memcpy(&simplefs_sb, sector, sizeof(simplefs_sb))`
unfoldable pub superblock_from : List ℕ → Superblock
superblock_from sector = record {
  magic = word_at sector 0;
  version = word_at sector 4;
  size_of_sector = word_at sector 8;
  total_sectors = word_at sector 12;
  dir_start = word_at sector 16;
  dir_sectors = word_at sector 20;
  data_start = word_at sector 24;
  next_free_sector = word_at sector 28;
  max_files = word_at sector 32;
}

-- The bytes of an entry.
unfoldable pub entry_bytes : DirEntry → List ℕ
entry_bytes e =
    word_bytes e.used
    ++ (e.name
        ++ (word_bytes e.start_sector
            ++ (word_bytes e.size_bytes
                ++ (word_bytes e.allocated_sectors
                    ++ (word_bytes e.flags
                        ++ (word_bytes e.reserved0
                            ++ (word_bytes e.reserved1 ++ word_bytes e.reserved2)))))))

-- `memcpy(entry, sector + offset, sizeof(*entry))`
unfoldable pub entry_from : List ℕ → ℕ → DirEntry
entry_from sector offset = record {
  used = word_at sector offset;
  name = take 32 (drop (offset + 4) sector);
  start_sector = word_at sector (offset + 36);
  size_bytes = word_at sector (offset + 40);
  allocated_sectors = word_at sector (offset + 44);
  flags = word_at sector (offset + 48);
  reserved0 = word_at sector (offset + 52);
  reserved1 = word_at sector (offset + 56);
  reserved2 = word_at sector (offset + 60);
}

-- `memcpy(sector + offset, bytes, length of bytes)`
abbrev pub patch : List ℕ → ℕ → List ℕ → List ℕ
patch sector offset bytes = take offset sector ++ (bytes ++ drop (offset + length bytes) sector)
