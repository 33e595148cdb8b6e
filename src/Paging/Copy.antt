-- ===== src/Paging/Copy.antt =====
-- `copy_physical_page` of kernel/paging.c: the words of the page that is copied.
use agentic_os_harness.Common.{ℕ, ◌+◌, ◌%◌, ◌≡◌, ◌≢◌}
use agentic_os_harness.Paging.{PageState, store}
use agentic_os_harness.Paging.{slot, store}
use agentic_os_harness.Paging.{page_present, page_writable}
use agentic_os_harness.Paging.{page_base}

-- The active directory has the scratch table for the addresses of the copy, and this maps them to the two
-- pages.
record Scratched (source dest : ℕ) (s : PageState) : Type 0 where
  directory : page_base (s.words (slot (page_base s.active) 1023)) ≡ s.scratch
  first : page_base (s.words s.scratch) ≡ source
  second : page_base (s.words (s.scratch + 4)) ≡ dest

-- What a copy of page `source` to page `dest` needs: a scratch table, which the active directory has for
-- its last 4 MB, and two different pages, neither of them that table, and the second one not the directory.
pub record IsCopy (source dest : ℕ) (s : PageState) : Type 0 where
  pub ready : s.scratch ≢ 0
  pub scratch_page : s.scratch % 4096 ≡ 0
  pub source_page : source % 4096 ≡ 0
  pub dest_page : dest % 4096 ≡ 0
  pub distinct : source ≢ dest
  pub off_scratch : s.scratch ≢ dest
  pub not_scratch : s.scratch ≢ source
  pub off_directory : page_base s.active ≢ dest
  pub other_directory : page_base s.active ≢ s.scratch
  pub in_directory : page_base (s.words (slot (page_base s.active) 1023)) ≡ s.scratch

-- The place of an address with the given entries and offset.
place_of : PageState → ℕ → ℕ → ℕ → ℕ
place_of s d t offset =
    page_base (s.words (slot (page_base (s.words (slot (page_base s.active) d))) t)) + offset

-- What the two entries of the scratch table map.
mapped : ℕ → ℕ → PageState → PageState
mapped source dest s =
    store (slot s.scratch 1) (dest + page_present + page_writable)
      (store s.scratch (source + page_present + page_writable) s)
