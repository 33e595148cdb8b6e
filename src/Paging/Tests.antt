-- ===== src/Paging/Tests.antt =====
-- Runs of the code of kernel/paging.c.
use agentic_os_harness.Common.{◌≡◌, refl, ◌==◌, if◌then◌else◌, arith, true, replicate}
use agentic_os_harness.Paging.{PageState, paging_map_page_in_directory}
use agentic_os_harness.Paging.Lookup.{HasTable}
use agentic_os_harness.Paging.Maps.{Maps, paging_map_page_in_directory-Maps}
use agentic_os_harness.Paging.Clone.{paging_resolve_cow_fault}
use agentic_os_harness.Frame.{frame_get_refcount}
use agentic_os_harness.Bitmap.{bitmap_test, test_bit}

-- A directory at 1 MB with one table, at 2 MB, for the user addresses from 1 GB on. Its third page is
-- shared copy on write, by nobody else.
abbrev one_table : PageState
one_table = record {
  words = λ x. if x == 1049600 then 2097159 else if x == 2097160 then 2098693 else 2;
  active = 1048576;
  scratch = 0;
  frames = record {
    bitmap = replicate 128 255;
    refcounts = replicate 1024 1;
    total = 1024;
    used = 1024;
    initialized = true;
  };
}

one_table-HasTable : HasTable 1048576 1073741824 one_table
one_table-HasTable = record { directory = omega arith; present = refl; elsewhere = omega arith }

one_table-HasTable_next : HasTable 1048576 1073745920 one_table
one_table-HasTable_next = record {
  directory = omega arith;
  present = refl;
  elsewhere = omega arith;
}

paging_map_page_in_directory-Maps_example :
    ((paging_map_page_in_directory 1048576 1073741824 3145728 7 one_table).0 ≡ true)
    × Maps 1048576 1073741824 1073745920 3145728 7 one_table
        (paging_map_page_in_directory 1048576 1073741824 3145728 7 one_table).1
paging_map_page_in_directory-Maps_example =
    paging_map_page_in_directory-Maps 1048576 1073741824 1073745920 3145728 7 one_table
      one_table-HasTable one_table-HasTable_next (omega arith) refl

-- The only user of a page copied on write may write it again.
resolves :
    let (done, s) = paging_resolve_cow_fault 1048576 1073750016 one_table in
    (done ≡ true) × (s.words 2097160 ≡ 2098183)
unfolding paging_resolve_cow_fault frame_get_refcount bitmap_test test_bit replicate
resolves = (refl, refl)

abbrev with_scratch : PageState
with_scratch = record one_table {
  scratch = 2101248;
  words = λ x. if x == 1052668 then 2101251 else one_table.words x;
}
