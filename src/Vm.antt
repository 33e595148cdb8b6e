-- ===== src/Vm.antt =====
-- kernel/vm.c: page faults of processes, over the page tables. The process runs, so its directory is the
-- active one, by which `memset` reaches the new page.
mod Tests
use agentic_os_harness.Common.{
  ℕ, ◌+◌, ◌-◌, ◌*◌, ◌/◌, ◌%◌, Bool, true, false, not, ◌&&◌, ◌||◌, Option, none, some, ◌==◌, ltb,
  leb, if◌then◌else◌, bit_and,
}
use agentic_os_harness.Frame.{frame_alloc, frame_release}
use agentic_os_harness.Process.Types.{Process}
use agentic_os_harness.Uaccess.{
  VmFaultResult, fatal, handled, guard, oom, user_space_start, user_space_end,
}
use agentic_os_harness.Paging.{
  PageState, page_present, page_writable, page_user, page_size, has_bits, fill_words,
  paging_get_physical_address, paging_map_page_in_directory, paging_get_page_flags_in_directory,
}
use agentic_os_harness.Paging.Spaces.{page_cow}
use agentic_os_harness.Paging.Clone.{paging_resolve_cow_fault}

abbrev pub user_stack_guard_bottom : ℕ
user_stack_guard_bottom = 2952781824

abbrev pub user_stack_bottom : ℕ
user_stack_bottom = 2952785920

-- The bits of an error code.
abbrev pub vm_fault_present : ℕ
vm_fault_present = 1

abbrev pub vm_fault_write : ℕ
vm_fault_write = 2

abbrev pub vm_fault_user : ℕ
vm_fault_user = 4

abbrev pub page_align_down : ℕ → ℕ
page_align_down value = value - value % page_size

abbrev pub is_stack_guard_fault : ℕ → Bool
is_stack_guard_fault address = leb user_stack_guard_bottom address && ltb address user_stack_bottom

abbrev pub in_heap : Process → ℕ → Bool
in_heap proc address = leb proc.heap_start address && ltb address proc.heap_end

unfoldable pub demand_map_heap_page : Process → ℕ → PageState → VmFaultResult × PageState
unfolding frame_alloc frame_release paging_map_page_in_directory paging_get_physical_address
    fill_words
demand_map_heap_page proc page s =
    let (phys, frames) = frame_alloc s.frames in
    let s1 = record s { frames = frames } in
    let (mapped, s2) =
      paging_map_page_in_directory proc.cr3 page phys (page_present + page_writable + page_user)
        s1 in
    if phys == 0
    then (oom, s1)
    else if not mapped
    then (oom, record s2 { frames = (frame_release s2.frames phys).1 })
    else (handled, fill_words 1024 (paging_get_physical_address page s2) 0 s2)

-- What the caller makes of a resolved, or refused, copy.
copy_or_oom : Bool × PageState → VmFaultResult × PageState
copy_or_oom (resolved, s) = (if resolved then handled else oom, s)

prepare_page : Process → ℕ → PageState → VmFaultResult × PageState
unfolding paging_get_page_flags_in_directory paging_resolve_cow_fault demand_map_heap_page
    copy_or_oom
prepare_page proc page s =
    let flags = paging_get_page_flags_in_directory proc.cr3 page s in
    if proc.cr3 == 0
      || not (page % page_size == 0)
      || ltb page user_space_start
      || leb user_space_end page
      || is_stack_guard_fault page
    then (fatal, s)
    else if has_bits flags (page_present + page_user + page_writable)
    then (handled, s)
    else if has_bits flags (page_present + page_user + page_cow)
    then copy_or_oom (paging_resolve_cow_fault proc.cr3 page s)
    else if bit_and flags page_present == 0 && in_heap proc page
    then demand_map_heap_page proc page s
    else (fatal, s)

unfoldable pub vm_prepare_user_write_page :
    Option Process → ℕ → PageState → VmFaultResult × PageState
unfolding prepare_page
vm_prepare_user_write_page none page s = (fatal, s)
vm_prepare_user_write_page (some proc) page s = prepare_page proc page s

-- A write to a page that is there.
write_fault : Process → ℕ → PageState → VmFaultResult × PageState
unfolding paging_resolve_cow_fault paging_get_page_flags_in_directory
write_fault proc page s =
    let (resolved, s') = paging_resolve_cow_fault proc.cr3 page s in
    if resolved
    then (handled, s')
    else if not (bit_and (paging_get_page_flags_in_directory proc.cr3 page s') page_cow == 0)
    then (oom, s')
    else (fatal, s')

-- An access to a page that is not there.
absent_fault : Process → ℕ → PageState → VmFaultResult × PageState
unfolding demand_map_heap_page
absent_fault proc address s =
    if is_stack_guard_fault address
    then (guard, s)
    else if in_heap proc address
    then demand_map_heap_page proc (page_align_down address) s
    else (fatal, s)

handle_fault : Process → ℕ → ℕ → PageState → VmFaultResult × PageState
unfolding write_fault absent_fault
handle_fault proc address error_code s =
    if proc.cr3 == 0 || bit_and error_code vm_fault_user == 0
    then (fatal, s)
    else if has_bits error_code (vm_fault_present + vm_fault_write)
    then write_fault proc (page_align_down address) s
    else if bit_and error_code vm_fault_present == 0
    then absent_fault proc address s
    else (fatal, s)

unfoldable pub vm_handle_page_fault : Option Process → ℕ → ℕ → PageState → VmFaultResult × PageState
unfolding handle_fault
vm_handle_page_fault none address error_code s = (fatal, s)
vm_handle_page_fault (some proc) address error_code s = handle_fault proc address error_code s
