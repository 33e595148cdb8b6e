-- ===== src/Paging.antt =====
-- kernel/paging.c: two levels of page tables in physical memory, a word for each address, over the
-- frame allocator. A directory and a table lie below 4 MB, where an address is its own. Loading `cr3` and
-- `invlpg` tell the processor only.
pub mod Spaces
pub mod Clone
pub mod Lookup
pub mod Maps
pub mod Words
pub mod Copy
mod Tests
use agentic_os_harness.Common.{
  ℕ, zero, suc, ◌+◌, ◌-◌, ◌*◌, ◌/◌, ◌%◌, Bool, true, false, not, ◌&&◌, ◌||◌, Option, ◌==◌,
  if◌then◌else◌, bit_and, bit_or, u32_mod,
}
use agentic_os_harness.Frame.{
  Frames, frame_alloc, frame_alloc_below, frame_release, frame_get_refcount,
}

abbrev pub page_size : ℕ
page_size = 4096

abbrev pub page_present : ℕ
page_present = 1

abbrev pub page_writable : ℕ
page_writable = 2

abbrev pub page_user : ℕ
page_user = 4

-- The static variables, physical memory and the frame allocator; the scratch table is 0 for NULL.
pub record PageState : Type 0 where
  pub words : ℕ → ℕ
  pub active : ℕ
  pub scratch : ℕ
  pub frames : Frames

-- `value & 0xFFFFF000`
abbrev pub page_base : ℕ → ℕ
page_base value = value - value % page_size

-- `(virtual_addr >> 22) & 0x3FF`
abbrev pub dir_index : ℕ → ℕ
dir_index address = address / 4194304 % 1024

-- `(virtual_addr >> 12) & 0x3FF`
abbrev pub table_index : ℕ → ℕ
table_index address = address / 4096 % 1024

-- The address of entry `i` of a table.
abbrev pub slot : ℕ → ℕ → ℕ
slot table i = table + 4 * i

abbrev pub store : ℕ → ℕ → PageState → PageState
store address word s = record s { words = λ x. if x == address then word else s.words x }

abbrev pub has_bits : ℕ → ℕ → Bool
has_bits entry bits = bit_and entry bits == bits

-- The entry of the directory for an address, and the table behind it.
abbrev pub directory_slot : ℕ → ℕ → ℕ
directory_slot cr3 address = slot (page_base cr3) (dir_index address)

abbrev pub table_slot : PageState → ℕ → ℕ → ℕ
table_slot s cr3 address =
    slot (page_base (s.words (directory_slot cr3 address))) (table_index address)

unfoldable pub paging_alloc_frame : PageState → ℕ × PageState
unfolding frame_alloc_below
paging_alloc_frame s =
    let (phys, frames) = frame_alloc_below s.frames 4194304 in (phys, record s { frames = frames })

-- `table[i] = word` for the `n` entries from `address` on.
unfoldable pub fill_words : ℕ → ℕ → ℕ → PageState → PageState
fill_words zero address word s = s
fill_words (suc n) address word s = fill_words n (address + 4) word (store address word s)

-- 0 is NULL.
unfoldable pub allocator_alloc_page_table : PageState → ℕ × PageState
unfolding paging_alloc_frame fill_words
allocator_alloc_page_table s =
    let (phys, s') = paging_alloc_frame s in
    if phys == 0 then (0, s') else (phys, fill_words 1024 phys page_writable s')

-- The word that maps a page to a frame.
abbrev pub page_entry : ℕ → ℕ → ℕ
page_entry phys flags = page_base phys + bit_or (flags % page_size) page_present

-- The directory entry of an address, made if it is not there; `false` where there is no memory.
unfoldable pub table_for : ℕ → ℕ → ℕ → PageState → Bool × PageState
unfolding allocator_alloc_page_table
table_for cr3 address flags s =
    let at = directory_slot cr3 address in
    let (table, s') = allocator_alloc_page_table s in
    if not (has_bits (s.words at) page_present)
    then (if table == 0
        then (false, s')
        else (true, store at (table + page_present + page_writable + bit_and flags page_user) s'))
    else if not (bit_and flags page_user == 0)
    then (true, store at (bit_or (s.words at) page_user) s)
    else (true, s)

unfoldable pub paging_map_page_in_directory : ℕ → ℕ → ℕ → ℕ → PageState → Bool × PageState
unfolding table_for
paging_map_page_in_directory cr3 address phys flags s =
    let (there, s') = table_for cr3 address flags s in
    if cr3 == 0 || not (phys % page_size == 0)
    then (false, s)
    else if not there
    then (false, s')
    else (true, store (table_slot s' cr3 address) (page_entry phys flags) s')

unfoldable pub paging_map_page : ℕ → ℕ → ℕ → PageState → PageState
unfolding paging_map_page_in_directory
paging_map_page address phys flags s =
    (paging_map_page_in_directory s.active address phys flags s).1

abbrev pub no_table : ℕ → ℕ → PageState → Bool
no_table cr3 address s =
    cr3 == 0 || not (has_bits (s.words (directory_slot cr3 address)) page_present)

unfoldable pub paging_unmap_page_in_directory : ℕ → ℕ → PageState → ℕ × PageState
paging_unmap_page_in_directory cr3 address s =
    let at = table_slot s cr3 address in
    if no_table cr3 address s then (0, s) else (page_base (s.words at), store at page_writable s)

unfoldable pub paging_unmap_page : ℕ → PageState → PageState
unfolding paging_unmap_page_in_directory
paging_unmap_page address s = (paging_unmap_page_in_directory s.active address s).1

unfoldable pub paging_is_mapped : ℕ → PageState → Bool
paging_is_mapped address s =
    has_bits (s.words (directory_slot s.active address)) page_present
    && has_bits (s.words (table_slot s s.active address)) page_present

-- Both levels allow what `bits` say.
abbrev pub allowed : ℕ → ℕ → PageState → Bool
allowed bits address s =
    has_bits (s.words (directory_slot s.active address)) bits
    && has_bits (s.words (table_slot s s.active address)) bits

unfoldable pub paging_is_user_accessible : ℕ → PageState → Bool
paging_is_user_accessible address s = allowed (page_present + page_user) address s

unfoldable pub paging_is_user_writable : ℕ → PageState → Bool
paging_is_user_writable address s = allowed (page_present + page_user + page_writable) address s

unfoldable pub paging_get_physical_address_in_directory : ℕ → ℕ → PageState → ℕ
paging_get_physical_address_in_directory cr3 address s =
    let entry = s.words (table_slot s cr3 address) in
    if no_table cr3 address s
    then 0
    else if not (has_bits entry page_present)
    then 0
    else page_base entry + address % page_size

unfoldable pub paging_get_page_flags_in_directory : ℕ → ℕ → PageState → ℕ
paging_get_page_flags_in_directory cr3 address s =
    if no_table cr3 address s then 0 else s.words (table_slot s cr3 address) % page_size

unfoldable pub paging_set_page_flags_in_directory : ℕ → ℕ → ℕ → PageState → Bool × PageState
paging_set_page_flags_in_directory cr3 address flags s =
    let at = table_slot s cr3 address in
    let s' = store at (page_entry (s.words at) flags) s in
    let above = directory_slot cr3 address in
    if no_table cr3 address s
    then (false, s)
    else if not (has_bits (s.words at) page_present)
    then (false, s)
    else if not (bit_and flags page_user == 0)
    then (true, store above (bit_or (s'.words above) page_user) s')
    else (true, s')

unfoldable pub paging_get_physical_address : ℕ → PageState → ℕ
unfolding paging_get_physical_address_in_directory
paging_get_physical_address address s = paging_get_physical_address_in_directory s.active address s

unfoldable pub paging_get_current_directory : PageState → ℕ
paging_get_current_directory s = s.active

unfoldable pub paging_switch_directory : ℕ → PageState → PageState
paging_switch_directory cr3 s = if cr3 == 0 then s else record s { active = page_base cr3 }
