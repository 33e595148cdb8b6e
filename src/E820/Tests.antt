-- ===== src/E820/Tests.antt =====
-- Runs of kernel/e820.c on a small map.
use agentic_os_harness.Common.{
  zero, suc, ◌+◌, ◌<◌, ◌≡◌, ◌↔◌, refl, true, false, [], ◌∷◌, arith, length, min, ◌==◌,
  if◌then◌else◌,
}
use agentic_os_harness.E820.{
  Entry, Handoff, MemoryMap, e820_init, e820_is_region_usable, e820_get_total_usable_memory,
  e820_magic,
}
use agentic_os_harness.E820.Regions.{SomeCovers, is_region_usable-SomeCovers, e820_init_bounded}

abbrev low_memory : Entry
low_memory = record { base = 0; length = 0x9FC00; type = 1; attributes = 0 }

abbrev high_memory : Entry
high_memory = record { base = 0x100000; length = 0x3F00000; type = 1; attributes = 0 }

abbrev reserved : Entry
reserved = record { base = 0x9FC00; length = 0x400; type = 2; attributes = 0 }

abbrev handoff : Handoff
handoff = record {
  magic = e820_magic;
  count = 3;
  entry_at = elim [ zero ↦ low_memory | suc k ↦ elim k [ zero ↦ reserved | suc j ↦ high_memory ] ];
}

abbrev small_map : MemoryMap
small_map = record {
  entries = low_memory ∷ reserved ∷ high_memory ∷ [];
  initialized = true;
  available = true;
}

init_reads_three : e820_init handoff ≡ small_map
unfolding e820_init
init_reads_three = refl

reserved_is_not_usable : e820_is_region_usable small_map 0x9F000 0x1000 ≡ false
unfolding e820_is_region_usable
reserved_is_not_usable = refl

wrapping_is_not_usable : e820_is_region_usable small_map 0x100000 0xFFFFFFFFFFFFFFFF ≡ false
unfolding e820_is_region_usable
wrapping_is_not_usable = refl

total_of_both : e820_get_total_usable_memory small_map ≡ 0x9FC00 + 0x3F00000
unfolding e820_get_total_usable_memory
total_of_both = refl

is_region_usable-SomeCovers_example :
    (e820_is_region_usable small_map 0x200000 0x100000 ≡ true)
    ↔ ((true ≡ true) × (0 < 0x100000) × SomeCovers 0x200000 0x100000 small_map.entries)
is_region_usable-SomeCovers_example =
    is_region_usable-SomeCovers small_map 0x200000 0x100000 (omega arith) (omega arith)
      (omega arith)

e820_init_bounded_example :
    let m = e820_init handoff in
    (length m.entries ≡ (if handoff.magic == e820_magic then min handoff.count 32 else 0))
    × (m.initialized ≡ true)
    × ((m.available ≡ true) ↔ (0 < length m.entries))
e820_init_bounded_example = e820_init_bounded handoff
