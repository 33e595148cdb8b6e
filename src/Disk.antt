-- ===== src/Disk.antt =====
-- `struct block_device` of include/blkdev.h: the operations that a client calls, over the device's
-- state `D`. `none` is any status but BLKDEV_SUCCESS. `IsDisk` is what a client relies on.
use agentic_os_harness.Common.{ℕ, ◌<◌, ◌≡◌, Option, some, List, ◌==◌, if◌then◌else◌, length}

abbrev pub sector_size : ℕ
sector_size = 512

pub record BlockDevice (D : Type 0) : Type 0 where
  pub sector_count : ℕ
  pub size_of_sector : ℕ
  pub read_sector : D → ℕ → Option (List ℕ)
  pub write_sector : D → ℕ → List ℕ → Option D

-- A read in range gives a sector; a write in range changes that sector and no other.
pub record IsDisk {D : Type 0} (dev : BlockDevice D) : Type 0 where
  pub reads :
      (d : D) (i : ℕ)
      → i < dev.sector_count
      → (bytes : List ℕ) × (dev.read_sector d i ≡ some bytes) × (length bytes ≡ sector_size)
  pub writes :
      (d : D) (i : ℕ) (bytes : List ℕ)
      → i < dev.sector_count
      → length bytes ≡ sector_size
      → (after : D) × (dev.write_sector d i bytes ≡ some after)
        × ((j : ℕ)
            → j < dev.sector_count
            → dev.read_sector after j ≡ (if i == j then some bytes else dev.read_sector d j))

-- Every sector that is read has its size.
abbrev pub IsSectored : {D : Type 0} → BlockDevice D → Type 0
IsSectored {D = D} dev =
    (d : D) (lba : ℕ) (bytes : List ℕ)
    → dev.read_sector d lba ≡ some bytes
    → length bytes ≡ sector_size
