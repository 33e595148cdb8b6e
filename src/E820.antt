-- ===== src/E820.antt =====
-- kernel/e820.c and include/e820.h: the memory map that the boot loader hands over. The hand-over
-- area is a header and the entries behind it, `entries[0]`, `entries[1]` and so on. Printing the map
-- is left out.
pub mod Regions
mod Tests
use agentic_os_harness.Common.{
  ℕ, zero, suc, ◌+◌, Bool, true, false, not, ◌&&◌, ◌||◌, List, [], ◌∷◌, ltb, leb, ◌==◌,
  if◌then◌else◌, add64, min, length,
}

-- `struct e820_entry`
pub record Entry : Type 0 where
  pub base : ℕ
  pub length : ℕ
  pub type : ℕ
  pub attributes : ℕ

-- `struct e820_handoff`, and the entries behind it in memory
pub record Handoff : Type 0 where
  pub magic : ℕ
  pub count : ℕ
  pub entry_at : ℕ → Entry

-- The static variables of e820.c; `memory_map.count` is the length of the list.
pub record MemoryMap : Type 0 where
  pub entries : List Entry
  pub initialized : Bool
  pub available : Bool

abbrev pub e820_usable : ℕ
e820_usable = 1

abbrev pub e820_max_entries : ℕ
e820_max_entries = 32

abbrev pub e820_magic : ℕ
e820_magic = 0x30323845

copy_entries : ℕ → ℕ → (ℕ → Entry) → List Entry
copy_entries zero i entry_at = []
copy_entries (suc n) i entry_at = entry_at i ∷ copy_entries n (i + 1) entry_at

unfoldable pub e820_init : Handoff → MemoryMap
unfolding copy_entries
e820_init h =
    if not (h.magic == e820_magic)
    then record { entries = []; initialized = true; available = false }
    else let count = if ltb e820_max_entries h.count then e820_max_entries else h.count in
      record {
        entries = copy_entries count 0 h.entry_at;
        initialized = true;
        available = ltb 0 count;
      }

-- `total += e->length` for each usable entry, modulo 2^64
sum_usable : List Entry → ℕ → ℕ
sum_usable [] total = total
sum_usable (e ∷ es) total =
    sum_usable es (if e.type == e820_usable then add64 total e.length else total)

unfoldable pub e820_get_total_usable_memory : MemoryMap → ℕ
unfolding sum_usable
e820_get_total_usable_memory m = if m.initialized then sum_usable m.entries 0 else 0

-- One round of the loop in `e820_is_region_usable`: both ends are computed modulo 2^64.
pub entry_covers : ℕ → ℕ → Entry → Bool
entry_covers base length e =
    e.type == e820_usable
    && leb base (add64 base length)
    && leb e.base (add64 e.base e.length)
    && leb e.base base
    && leb (add64 base length) (add64 e.base e.length)

pub any_covers : ℕ → ℕ → List Entry → Bool
unfolding entry_covers
any_covers base length [] = false
any_covers base length (e ∷ es) = entry_covers base length e || any_covers base length es

unfoldable pub e820_is_region_usable : MemoryMap → ℕ → ℕ → Bool
unfolding any_covers
e820_is_region_usable m base length =
    if not m.initialized
    then false
    else if length == 0
    then false
    else any_covers base length m.entries

unfoldable pub e820_is_available : MemoryMap → Bool
e820_is_available m = m.initialized && m.available
