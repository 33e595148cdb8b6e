-- ===== src/Paging/Spaces.antt =====
-- Address spaces of kernel/paging.c: made, destroyed, cloned with copy on write, and a page copied when it
-- is written. A loop over a directory or a table counts the entries that are left.
use agentic_os_harness.Common.{ℕ, zero, suc, ◌+◌, ◌*◌, Bool, not, ◌&&◌, ◌||◌, ◌==◌, if◌then◌else◌}
use agentic_os_harness.Frame.{frame_free}
use agentic_os_harness.Paging.{
  PageState, page_base, page_present, page_writable, page_user, page_size, slot, store, has_bits,
  allocator_alloc_page_table, fill_words,
}

abbrev pub page_cow : ℕ
page_cow = 512

abbrev pub page_directory : ℕ
page_directory = 1048576

abbrev pub first_page_table : ℕ
first_page_table = 1052672

-- The loop that maps the first 4 MB to itself: entry `i` on.
pub identity_from : ℕ → ℕ → ℕ → PageState → PageState
identity_from zero i table s = s
identity_from (suc n) i table s =
    identity_from n (i + 1) table
      (store (slot table i) (i * page_size + page_present + page_writable) s)

unfoldable pub paging_init : PageState → PageState
unfolding fill_words identity_from allocator_alloc_page_table
paging_init s =
    let s1 = fill_words 1024 page_directory page_writable s in
    let s2 = identity_from 1024 0 first_page_table s1 in
    let s3 = store page_directory (first_page_table + page_present + page_writable) s2 in
    let (scratch, s4) = allocator_alloc_page_table s3 in
    let s5 = record s4 { scratch = scratch } in
    let s6 =
      if scratch == 0
      then s5
      else store (slot page_directory 1023) (scratch + page_present + page_writable) s5 in
    record s6 { active = page_directory }

-- The loop that shares the kernel's mappings: entry `i` on.
pub share_from : ℕ → ℕ → ℕ → PageState → PageState
share_from zero i directory s = s
share_from (suc n) i directory s =
    let entry = s.words (slot s.active i) in
    share_from n (i + 1) directory (
      if has_bits entry page_present && not (has_bits entry page_user)
      then store (slot directory i) entry s
      else s)

unfoldable pub paging_create_address_space : PageState → ℕ × PageState
unfolding allocator_alloc_page_table identity_from share_from frame_free
paging_create_address_space s =
    let (directory, s1) = allocator_alloc_page_table s in
    let (low_table, s2) = allocator_alloc_page_table s1 in
    if directory == 0
    then (0, s1)
    else if low_table == 0
    then (0, record s2 { frames = frame_free s2.frames directory })
    else (
      directory,
      share_from 1023 1 directory (
          store directory (low_table + page_present + page_writable)
            (identity_from 1024 0 low_table s2)),
    )

abbrev pub give_back : ℕ → PageState → PageState
give_back phys s = record s { frames = frame_free s.frames phys }

-- The loop over a table that gives the user frames back: entry `j` on.
pub free_pages_from : ℕ → ℕ → ℕ → PageState → PageState
unfolding frame_free
free_pages_from zero j table s = s
free_pages_from (suc n) j table s =
    let at = slot table j in
    free_pages_from n (j + 1) table (
      if has_bits (s.words at) (page_present + page_user)
      then store at page_writable (give_back (page_base (s.words at)) s)
      else s)

-- Whether the walk over a directory passes by entry `i`.
abbrev pub not_owned : ℕ → ℕ → Bool
not_owned entry i =
    not (has_bits entry page_present) || (not (i == 0) && not (has_bits entry page_user))

-- The loop of `paging_destroy_address_space`: entry `i` on.
pub destroy_from : ℕ → ℕ → ℕ → PageState → PageState
unfolding free_pages_from frame_free
destroy_from zero i directory s = s
destroy_from (suc n) i directory s =
    let at = slot directory i in
    let table = page_base (s.words at) in
    let emptied = store at page_writable (give_back table (free_pages_from 1024 0 table s)) in
    destroy_from n (i + 1) directory
      (if not_owned (s.words at) i || table == first_page_table then s else emptied)

unfoldable pub paging_destroy_address_space : ℕ → PageState → PageState
unfolding destroy_from frame_free
paging_destroy_address_space cr3 s =
    let directory = page_base cr3 in
    if cr3 == 0 || directory == page_directory || directory == s.active
    then s
    else give_back directory (destroy_from 1024 0 directory s)

-- The loop of `paging_destroy_clone_skeleton`.
pub skeleton_from : ℕ → ℕ → ℕ → PageState → PageState
unfolding frame_free
skeleton_from zero i directory s = s
skeleton_from (suc n) i directory s =
    let at = slot directory i in
    skeleton_from n (i + 1) directory (
      if not_owned (s.words at) i
      then s
      else store at page_writable (give_back (page_base (s.words at)) s))

unfoldable pub paging_destroy_clone_skeleton : ℕ → PageState → PageState
unfolding skeleton_from frame_free
paging_destroy_clone_skeleton directory s =
    if directory == 0 then s else give_back directory (skeleton_from 1024 0 directory s)

-- The loop of `paging_destroy_clone_with_refs`.
pub with_refs_from : ℕ → ℕ → ℕ → PageState → PageState
unfolding free_pages_from frame_free
with_refs_from zero i directory s = s
with_refs_from (suc n) i directory s =
    let at = slot directory i in
    let table = page_base (s.words at) in
    with_refs_from n (i + 1) directory (
      if not_owned (s.words at) i
      then s
      else store at page_writable (give_back table (free_pages_from 1024 0 table s)))

unfoldable pub paging_destroy_clone_with_refs : ℕ → PageState → PageState
unfolding with_refs_from frame_free
paging_destroy_clone_with_refs directory s =
    if directory == 0 then s else give_back directory (with_refs_from 1024 0 directory s)
