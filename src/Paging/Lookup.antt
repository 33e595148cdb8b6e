-- ===== src/Paging/Lookup.antt =====
-- What kernel/paging.c finds behind a page that was mapped.
use agentic_os_harness.Common.{
  ℕ, ◌+◌, ◌%◌, ◌≡◌, ◌≢◌, refl, true, false, arith, ◌==◌, Bool-cases, inl, inr, bit_and, bit_or,
  bit_and-one, bit_or-one, bit_or-four,
}
use agentic_os_harness.Paging.{
  PageState, page_base, page_entry, store, has_bits, directory_slot, table_slot,
  paging_get_physical_address_in_directory, paging_get_page_flags_in_directory, table_for,
}

-- The directory has a table for the address, in another page than its own.
pub record HasTable (cr3 address : ℕ) (s : PageState) : Type 0 where
  pub directory : cr3 ≢ 0
  pub present : has_bits (s.words (directory_slot cr3 address)) 1 ≡ true
  pub elsewhere : page_base (s.words (directory_slot cr3 address)) ≢ page_base cr3

-- The entry of a page: present, with the frame and the flags.
pub page_entry-present : (phys flags : ℕ) → has_bits (page_entry phys flags) 1 ≡ true
page_entry-present phys flags =
    ground (arith, bit_and-one (page_entry phys flags), bit_or-one (flags % 4096))

pub page_entry-base : (phys flags : ℕ) → phys % 4096 ≡ 0 → page_base (page_entry phys flags) ≡ phys
page_entry-base phys flags h = omega (arith, h, bit_or-one (flags % 4096))

page_entry-flags :
    (phys flags : ℕ) → phys % 4096 ≡ 0 → page_entry phys flags % 4096 ≡ bit_or (flags % 4096) 1
page_entry-flags phys flags h = omega (arith, h, bit_or-one (flags % 4096))

-- What `table_for` leaves: the same table in the directory entry, present, and all other words.
pub record Keeps (cr3 address : ℕ) (s s' : PageState) : Type 0 where
  pub base :
      page_base (s'.words (directory_slot cr3 address))
      ≡ page_base (s.words (directory_slot cr3 address))
  pub present : has_bits (s'.words (directory_slot cr3 address)) 1 ≡ true
  pub rest : (x : ℕ) → x ≢ directory_slot cr3 address → s'.words x ≡ s.words x

marked_user-base : (x : ℕ) → page_base (bit_or x 4) ≡ page_base x
marked_user-base x = omega (arith, bit_or-four x)

marked_user-present : (x : ℕ) → has_bits x 1 ≡ true → has_bits (bit_or x 4) 1 ≡ true
marked_user-present x h = ground (arith, bit_or-four x, bit_and-one x, bit_and-one (bit_or x 4), h)

pub table_for-Keeps :
    (cr3 address flags : ℕ) (s : PageState)
    → has_bits (s.words (directory_slot cr3 address)) 1 ≡ true
    → ((table_for cr3 address flags s).0 ≡ true)
      × Keeps cr3 address s (table_for cr3 address flags s).1
unfolding table_for
table_for-Keeps cr3 address flags s h =
    let at = directory_slot cr3 address in
    elim (Bool-cases (bit_and flags 4 == 0)) [
      | inl kernel ↦
          rw (h, kernel) (refl, record { base = refl; present = h; rest = λ x apart. refl })
      | inr user ↦
          let here : (at == at) ≡ true = ground arith in
          rw (h, user)
            (
              refl,
              record {
                base = rw here (marked_user-base (s.words at));
                present = rw here (marked_user-present (s.words at) h);
                rest =
                    λ x apart. (let off : (x == at) ≡ false = ground (arith, apart) in rw off refl);
              },
            )
    ]

-- What the lookups find in `s'`.
pub record Finds (cr3 address phys flags : ℕ) (s' : PageState) : Type 0 where
  pub physical : paging_get_physical_address_in_directory cr3 address s' ≡ phys + address % 4096
  pub flag_bits : paging_get_page_flags_in_directory cr3 address s' ≡ bit_or (flags % 4096) 1

pub stored-Finds :
    (cr3 address phys flags : ℕ) (s s' : PageState)
    → HasTable cr3 address s
    → Keeps cr3 address s s'
    → phys % 4096 ≡ 0
    → Finds cr3 address phys flags (store (table_slot s' cr3 address) (page_entry phys flags) s')
unfolding paging_get_physical_address_in_directory paging_get_page_flags_in_directory
stored-Finds cr3 address phys flags s s' t k aligned =
    let above = directory_slot cr3 address in
    let at = table_slot s' cr3 address in
    let apart : (above == at) ≡ false = ground (arith, k.base, t.elsewhere) in
    let here : (at == at) ≡ true = ground arith in
    let some_directory : (cr3 == 0) ≡ false = ground (arith, t.directory) in
    let entry = page_entry-present phys flags in
    record {
      physical =
          rw (some_directory, apart, here, k.present, entry, page_entry-base phys flags aligned)
            refl;
      flag_bits = rw (some_directory, apart, here, k.present) (page_entry-flags phys flags aligned);
    }

-- What the lookups find at a page is the same in both states.
pub record SamePage (cr3 address : ℕ) (s s' : PageState) : Type 0 where
  pub physical :
      paging_get_physical_address_in_directory cr3 address s'
      ≡ paging_get_physical_address_in_directory cr3 address s
  pub flag_bits :
      paging_get_page_flags_in_directory cr3 address s'
      ≡ paging_get_page_flags_in_directory cr3 address s

-- The entry of a page with another place than `address` is not touched.
other_entry :
    (cr3 address other phys flags : ℕ) (s s' : PageState)
    → HasTable cr3 other s
    → Keeps cr3 address s s'
    → page_base (s'.words (directory_slot cr3 other))
      ≡ page_base (s.words (directory_slot cr3 other))
    → table_slot s cr3 other ≢ table_slot s cr3 address
    → s'.words (table_slot s' cr3 other) ≡ s.words (table_slot s cr3 other)
other_entry cr3 address other phys flags s s' t k same apart =
    rw same (k.rest (table_slot s cr3 other) (λ clash. ground (arith, t.elsewhere, clash)))

directory_entry-Keeps :
    (cr3 address other : ℕ) (s s' : PageState)
    → HasTable cr3 other s
    → Keeps cr3 address s s'
    → (page_base (s'.words (directory_slot cr3 other))
        ≡ page_base (s.words (directory_slot cr3 other)))
      × (has_bits (s'.words (directory_slot cr3 other)) 1 ≡ true)
directory_entry-Keeps cr3 address other s s' t k =
    let above = directory_slot cr3 address in
    let below = directory_slot cr3 other in
    elim (Bool-cases (below == above)) [
      | inl same ↦ let equal : below ≡ above = ground (arith, same) in rw equal (k.base, k.present)
      | inr off ↦
          let apart : below ≢ above = λ e. ground (arith, off, e) in
          rw (k.rest below apart) (refl, t.present)
    ]

pub stored-SamePage :
    (cr3 address other phys flags : ℕ) (s s' : PageState)
    → HasTable cr3 address s
    → HasTable cr3 other s
    → Keeps cr3 address s s'
    → table_slot s cr3 other ≢ table_slot s cr3 address
    → SamePage cr3 other s (store (table_slot s' cr3 address) (page_entry phys flags) s')
unfolding paging_get_physical_address_in_directory paging_get_page_flags_in_directory
stored-SamePage cr3 address other phys flags s s' t u k apart =
    let kept = directory_entry-Keeps cr3 address other s s' u k in
    let entry = other_entry cr3 address other phys flags s s' u k kept.0 apart in
    let above : (directory_slot cr3 other == table_slot s' cr3 address) ≡ false =
      ground (arith, k.base, t.elsewhere) in
    let off : (table_slot s' cr3 other == table_slot s' cr3 address) ≡ false =
      ground (arith, k.base, kept.0, apart) in
    record {
      physical = rw (above, off, entry, kept.1, u.present) refl;
      flag_bits = rw (above, off, entry, kept.1, u.present) refl;
    }
