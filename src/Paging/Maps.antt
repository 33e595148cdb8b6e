-- ===== src/Paging/Maps.antt =====
-- `paging_map_page_in_directory` of kernel/paging.c, with the lookups and the unmapping behind it.
use agentic_os_harness.Common.{ℕ, ◌%◌, ◌≡◌, ◌≢◌, refl, ap, ◌∙◌, true, false, arith, ◌==◌}
use agentic_os_harness.Paging.{
  PageState, page_base, page_entry, store, directory_slot, table_slot, paging_map_page_in_directory,
  paging_unmap_page_in_directory, paging_get_physical_address_in_directory, table_for,
}
use agentic_os_harness.Paging.Lookup.{
  HasTable, Keeps, Finds, SamePage, page_entry-base, table_for-Keeps, stored-Finds, stored-SamePage,
}

-- Unmapping a page of a table: it gives the frame of the entry, and the page is gone.
unmapped :
    (cr3 address : ℕ) (s : PageState)
    → HasTable cr3 address s
    → ((paging_unmap_page_in_directory cr3 address s).0
        ≡ page_base (s.words (table_slot s cr3 address)))
      × (paging_get_physical_address_in_directory cr3 address
            (paging_unmap_page_in_directory cr3 address s).1
          ≡ 0)
unfolding paging_get_physical_address_in_directory paging_unmap_page_in_directory
unmapped cr3 address s t =
    let above = directory_slot cr3 address in
    let at = table_slot s cr3 address in
    let apart : (above == at) ≡ false = ground (arith, t.elsewhere) in
    let here : (at == at) ≡ true = ground arith in
    let some_directory : (cr3 == 0) ≡ false = ground (arith, t.directory) in
    rw (some_directory, t.present) (refl, rw (apart, here, t.present) refl)

-- Mapping the page keeps the table.
stored-HasTable :
    (cr3 address word : ℕ) (s s' : PageState)
    → HasTable cr3 address s
    → Keeps cr3 address s s'
    → HasTable cr3 address (store (table_slot s' cr3 address) word s')
stored-HasTable cr3 address word s s' t k =
    let apart : (directory_slot cr3 address == table_slot s' cr3 address) ≡ false =
      ground (arith, k.base, t.elsewhere) in
    record {
      directory = t.directory;
      present = rw apart k.present;
      elsewhere = rw (apart, k.base) t.elsewhere;
    }

stored_entry :
    (cr3 address word : ℕ) (s s' : PageState)
    → HasTable cr3 address s
    → Keeps cr3 address s s'
    → let s2 = store (table_slot s' cr3 address) word s' in
      s2.words (table_slot s2 cr3 address) ≡ word
stored_entry cr3 address word s s' t k =
    let at = table_slot s' cr3 address in
    let apart : (directory_slot cr3 address == at) ≡ false = ground (arith, k.base, t.elsewhere) in
    let here : (at == at) ≡ true = ground arith in rw (apart, here) refl

-- What mapping `phys` at `address` leaves: the page has the frame and the flags, `other` is as before, and
-- unmapping gives the frame back.
pub record Maps (cr3 address other phys flags : ℕ) (s s' : PageState) : Type 0 where
  pub finds : Finds cr3 address phys flags s'
  pub kept : SamePage cr3 other s s'
  pub given_back : (paging_unmap_page_in_directory cr3 address s').0 ≡ phys
  pub gone :
      paging_get_physical_address_in_directory cr3 address
        (paging_unmap_page_in_directory cr3 address s').1
      ≡ 0

stored-Maps :
    (cr3 address other phys flags : ℕ) (s s' : PageState)
    → HasTable cr3 address s
    → HasTable cr3 other s
    → table_slot s cr3 other ≢ table_slot s cr3 address
    → phys % 4096 ≡ 0
    → Keeps cr3 address s s'
    → Maps cr3 address other phys flags s
        (store (table_slot s' cr3 address) (page_entry phys flags) s')
stored-Maps cr3 address other phys flags s s' t u apart aligned k =
    let entry = page_entry phys flags in
    let s2 = store (table_slot s' cr3 address) entry s' in
    let back = unmapped cr3 address s2 (stored-HasTable cr3 address entry s s' t k) in
    record {
      finds = stored-Finds cr3 address phys flags s s' t k aligned;
      kept = stored-SamePage cr3 address other phys flags s s' t u k apart;
      given_back =
          back.0
          ∙ ap (λ e. page_base e) (stored_entry cr3 address entry s s' t k)
          ∙ page_entry-base phys flags aligned;
      gone = back.1;
    }

-- Mapping an aligned frame at a page whose directory has a table for it, outside the directory's own page,
-- succeeds. Then the lookups find the frame and the flags there, what they find at any other page with
-- such a table is as before, and unmapping the page gives the frame back and leaves no page there.
pub paging_map_page_in_directory-Maps :
    (cr3 address other phys flags : ℕ) (s : PageState)
    → HasTable cr3 address s
    → HasTable cr3 other s
    → table_slot s cr3 other ≢ table_slot s cr3 address
    → phys % 4096 ≡ 0
    → ((paging_map_page_in_directory cr3 address phys flags s).0 ≡ true)
      × Maps cr3 address other phys flags s
          (paging_map_page_in_directory cr3 address phys flags s).1
unfolding paging_map_page_in_directory
paging_map_page_in_directory-Maps cr3 address other phys flags s t u apart aligned =
    let kept = table_for-Keeps cr3 address flags s t.present in
    let some_directory : (cr3 == 0) ≡ false = ground (arith, t.directory) in
    let even : (phys % 4096 == 0) ≡ true = ground (arith, aligned) in
    rw (some_directory, even, kept.0)
      (
        refl,
        stored-Maps cr3 address other phys flags s (table_for cr3 address flags s).1 t u apart
            aligned kept.1,
      )
