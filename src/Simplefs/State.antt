-- ===== src/Simplefs/State.antt =====
-- The static variables of kernel/simplefs.c, and functions that may fail: the result, or the status of
-- the error, and the state that is left either way.
use agentic_os_harness.Common.{ℕ, Bool, true, false, List, ℤ, negsuc}

abbrev pub simplefs_magic : ℕ
simplefs_magic = 827541075

abbrev pub simplefs_dir_start : ℕ
simplefs_dir_start = 1

abbrev pub simplefs_dir_sectors : ℕ
simplefs_dir_sectors = 4

abbrev pub simplefs_max_files : ℕ
simplefs_max_files = 32

abbrev pub simplefs_name_max : ℕ
simplefs_name_max = 32

abbrev pub simplefs_data_start : ℕ
simplefs_data_start = 5

abbrev pub simplefs_max_tracked_sectors : ℕ
simplefs_max_tracked_sectors = 4096

-- `struct simplefs_superblock`
pub record Superblock : Type 0 where
  pub magic : ℕ
  pub version : ℕ
  pub size_of_sector : ℕ
  pub total_sectors : ℕ
  pub dir_start : ℕ
  pub dir_sectors : ℕ
  pub data_start : ℕ
  pub next_free_sector : ℕ
  pub max_files : ℕ

-- `struct simplefs_dir_entry`: the name is its 32 characters.
pub record DirEntry : Type 0 where
  pub used : ℕ
  pub name : List ℕ
  pub start_sector : ℕ
  pub size_bytes : ℕ
  pub allocated_sectors : ℕ
  pub flags : ℕ
  pub reserved0 : ℕ
  pub reserved1 : ℕ
  pub reserved2 : ℕ

-- The device's state, and the static variables but the pointer to the device.
pub record SimpleFs (D : Type 0) : Type 0 where
  pub disk : D
  pub sb : Superblock
  pub mounted : Bool
  pub sector_used : List ℕ

pub data Result (A : Type 0) : Type 0 where
  ok : A → Result A
  err : ℤ → Result A

abbrev pub Fs : Type 0 → Type 0 → Type 0
Fs D A = SimpleFs D → Result A × SimpleFs D

-- What follows a step, by its result.
abbrev pub and_then :
    {D A B : Type 0} → Result A × SimpleFs D → (A → Fs D B) → Result B × SimpleFs D
and_then (ok a, s) f = f a s
and_then (err e, s) f = (err e, s)

infixl 5 ◌>>=◌ ◌>>◌
abbrev pub ◌>>=◌ : {D A B : Type 0} → Fs D A → (A → Fs D B) → Fs D B
◌>>=◌ m f s = and_then (m s) f

abbrev pub ◌>>◌ : {D B : Type 0} → Fs D (Unit {0}) → Fs D B → Fs D B
m >> k = m >>= λ _. k

abbrev pub give : {D A : Type 0} → A → Fs D A
give a s = (ok a, s)

abbrev pub fail : {D A : Type 0} → ℤ → Fs D A
fail status s = (err status, s)

abbrev pub guard : {D : Type 0} → Bool → ℤ → Fs D (Unit {0})
guard true status = give tt
guard false status = fail status

-- The VFS statuses that the functions return.
abbrev pub einval : ℤ
einval = negsuc 0

abbrev pub enoent : ℤ
enoent = negsuc 1

abbrev pub enospc : ℤ
enospc = negsuc 2

abbrev pub eio : ℤ
eio = negsuc 3
