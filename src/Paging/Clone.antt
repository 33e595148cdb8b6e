-- ===== src/Paging/Clone.antt =====
-- `paging_clone_directory` of kernel/paging.c, which shares the user frames for copy on write, and
-- `paging_resolve_cow_fault`, which ends the sharing of one page.
use agentic_os_harness.Common.{
  ℕ, zero, suc, ◌+◌, ◌-◌, ◌%◌, Bool, true, false, not, ◌&&◌, ◌||◌, ◌==◌, if◌then◌else◌, bit_and,
  bit_or, u32_mod,
}
use agentic_os_harness.Frame.{frame_alloc, frame_release, frame_retain, frame_get_refcount}
use agentic_os_harness.Paging.{
  PageState, page_base, page_present, page_writable, page_user, page_size, slot, store, has_bits,
  no_table, table_slot, allocator_alloc_page_table,
}
use agentic_os_harness.Paging.Spaces.{
  page_cow, not_owned, paging_destroy_clone_skeleton, paging_destroy_clone_with_refs,
}
use agentic_os_harness.Paging.{table_slot}
use agentic_os_harness.Common.{◌*◌}

-- Whether a frame of a table of the source cannot be shared: entry `j` on.
pub unshareable_from : ℕ → ℕ → ℕ → PageState → Bool
unfolding frame_get_refcount
unshareable_from zero j table s = false
unshareable_from (suc n) j table s =
    let entry = s.words (slot table j) in
    let refs = frame_get_refcount s.frames (page_base entry) in
    (has_bits entry (page_present + page_user) && (refs == 0 || refs == 65535))
    || unshareable_from n (j + 1) table s

-- One round of phase 1 of `paging_clone_directory`: a table for entry `i` of the source.
table_cloned : ℕ → ℕ → ℕ → PageState → Bool × PageState
unfolding allocator_alloc_page_table unshareable_from paging_destroy_clone_skeleton
table_cloned i source dest s =
    let entry = s.words (slot source i) in
    let (table, s1) = allocator_alloc_page_table s in
    let s2 = store (slot dest i) (page_base table + entry % page_size) s1 in
    if not (has_bits entry page_present)
    then (true, s)
    else if not (i == 0) && not (has_bits entry page_user)
    then (true, store (slot dest i) entry s)
    else if table == 0
    then (false, paging_destroy_clone_skeleton dest s1)
    else if unshareable_from 1024 0 (page_base entry) s2
    then (false, paging_destroy_clone_skeleton dest s2)
    else (true, s2)

pub tables_from : ℕ → ℕ → ℕ → ℕ → PageState → Bool × PageState
unfolding table_cloned
tables_from zero i source dest s = (true, s)
tables_from (suc n) i source dest s =
    let (going, s') = table_cloned i source dest s in
    elim going [ true ↦ tables_from n (i + 1) source dest s' | false ↦ (false, s') ]

-- One round of phase 2a: entry `j` of a table is shared.
entry_shared : ℕ → ℕ → ℕ → ℕ → PageState → Bool × PageState
unfolding frame_retain paging_destroy_clone_with_refs
entry_shared j source_table table dest s =
    let entry = s.words (slot source_table j) in
    let (retained, frames) = frame_retain s.frames (page_base entry) in
    if not (has_bits entry page_present)
    then (true, s)
    else if not (has_bits entry page_user)
    then (true, store (slot table j) entry s)
    else if not retained
    then (false, paging_destroy_clone_with_refs dest (record s { frames = frames }))
    else (true, store (slot table j) entry (record s { frames = frames }))

pub entries_from : ℕ → ℕ → ℕ → ℕ → ℕ → PageState → Bool × PageState
unfolding entry_shared
entries_from zero j source_table table dest s = (true, s)
entries_from (suc n) j source_table table dest s =
    let (going, s') = entry_shared j source_table table dest s in
    elim going [ true ↦ entries_from n (j + 1) source_table table dest s' | false ↦ (false, s') ]

pub retain_from : ℕ → ℕ → ℕ → ℕ → PageState → Bool × PageState
unfolding entries_from
retain_from zero i source dest s = (true, s)
retain_from (suc n) i source dest s =
    let entry = s.words (slot dest i) in
    let (going, s') =
      if not_owned entry i
      then (true, s)
      else entries_from 1024 0 (page_base (s.words (slot source i))) (page_base entry) dest s in
    elim going [ true ↦ retain_from n (i + 1) source dest s' | false ↦ (false, s') ]

-- `(entry & ~PAGE_WRITABLE) | PAGE_COW`
abbrev pub cow_entry : ℕ → ℕ
cow_entry entry = bit_or (bit_and entry (u32_mod - 1 - page_writable)) page_cow

-- One table of phase 2b: entry `j` on is made read-only.
pub commit_entries_from : ℕ → ℕ → ℕ → ℕ → PageState → PageState
commit_entries_from zero j source_table table s = s
commit_entries_from (suc n) j source_table table s =
    let entry = s.words (slot source_table j) in
    commit_entries_from n (j + 1) source_table table (
      if has_bits entry (page_present + page_user)
        && not (bit_and entry (page_writable + page_cow) == 0)
      then store (slot table j) (cow_entry entry) (store (slot source_table j) (cow_entry entry) s)
      else s)

pub commit_from : ℕ → ℕ → ℕ → ℕ → PageState → PageState
unfolding commit_entries_from
commit_from zero i source dest s = s
commit_from (suc n) i source dest s =
    let entry = s.words (slot dest i) in
    commit_from n (i + 1) source dest (
      if not_owned entry i
      then s
      else commit_entries_from 1024 0 (page_base (s.words (slot source i))) (page_base entry) s)

-- The phases, of which the first two may fail.
committed : ℕ → ℕ → Bool × PageState → ℕ × PageState
unfolding commit_from
committed source dest (false, s) = (0, s)
committed source dest (true, s) = (dest, commit_from 1024 0 source dest s)

retained : ℕ → ℕ → Bool × PageState → ℕ × PageState
unfolding retain_from committed
retained source dest (false, s) = (0, s)
retained source dest (true, s) = committed source dest (retain_from 1024 0 source dest s)

unfoldable pub paging_clone_directory : ℕ → PageState → ℕ × PageState
unfolding allocator_alloc_page_table tables_from retained
paging_clone_directory cr3 s =
    let source = page_base cr3 in
    let (dest, s') = allocator_alloc_page_table s in
    if cr3 == 0 || s.scratch == 0
    then (0, s)
    else if dest == 0
    then (0, s')
    else retained source dest (tables_from 1024 0 source dest s')

-- SCRATCH_SOURCE_VADDR and SCRATCH_DEST_VADDR
abbrev pub scratch_source : ℕ
scratch_source = 4290772992

abbrev pub scratch_dest : ℕ
scratch_dest = 4290777088

-- The word that the active directory shows at an address, and the place of it in memory: the walk of the
-- processor over the two tables.
abbrev pub place : PageState → ℕ → ℕ
place s address = page_base (s.words (table_slot s s.active address)) + address % page_size

-- `memcpy` of the `n` words from `i` on, between the two addresses of the scratch table.
unfoldable pub copy_words_from : ℕ → ℕ → PageState → PageState
copy_words_from zero i s = s
copy_words_from (suc n) i s =
    copy_words_from n (i + 1)
      (store (place s (scratch_dest + 4 * i)) (s.words (place s (scratch_source + 4 * i))) s)

-- The first two entries of the scratch table map the pages to the addresses of the copy, and are cleared
-- behind it.
unfoldable pub copy_physical_page : ℕ → ℕ → PageState → Bool × PageState
copy_physical_page source dest s =
    let s1 = store s.scratch (source + page_present + page_writable) s in
    let s2 = store (slot s.scratch 1) (dest + page_present + page_writable) s1 in
    if s.scratch == 0 || not (source % page_size == 0) || not (dest % page_size == 0)
    then (false, s)
    else (
      true,
      store (slot s.scratch 1) page_writable
          (store s.scratch page_writable (copy_words_from 1024 0 s2)),
    )

-- `entry | PAGE_WRITABLE` without PAGE_COW
abbrev pub writable_entry : ℕ → ℕ
writable_entry entry = bit_and (bit_or entry page_writable) (u32_mod - 1 - page_cow)

-- The page gets a frame of its own.
unfoldable pub copied_page : ℕ → ℕ → PageState → Bool × PageState
unfolding frame_alloc frame_release copy_physical_page
copied_page at entry s =
    let old = page_base entry in
    let (new, frames) = frame_alloc s.frames in
    let s1 = record s { frames = frames } in
    let (copied, s2) = copy_physical_page old new s1 in
    if new == 0
    then (false, s1)
    else if not copied
    then (false, record s2 { frames = (frame_release s2.frames new).1 })
    else (
      true,
      store at (new + writable_entry (entry % page_size))
          (record s2 { frames = (frame_release s2.frames old).1 }),
    )

unfoldable pub paging_resolve_cow_fault : ℕ → ℕ → PageState → Bool × PageState
unfolding copied_page frame_get_refcount
paging_resolve_cow_fault cr3 address s =
    let at = table_slot s cr3 address in
    let entry = s.words at in
    let refs = frame_get_refcount s.frames (page_base entry) in
    if no_table cr3 address s
    then (false, s)
    else if not (has_bits entry (page_present + page_user + page_cow))
        || has_bits entry page_writable
    then (false, s)
    else if refs == 0
    then (false, s)
    else if refs == 1
    then (true, store at (writable_entry entry) s)
    else copied_page at entry s
